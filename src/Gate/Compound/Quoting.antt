-- ===== src/Gate/Compound/Quoting.antt =====
-- src/gate/compound.rs: the quoting state of the loop, and a separator outside quotes.
use mathlib.Core.List.{append_assoc}
use apohara_agentguard.Prelude.{
  ◌≤◌, ◌++◌, ◌≡◌, refl, sym, ◌∙◌, ap, arith, Text, Bool, true, false, not, ◌&&◌, ◌||◌, none, [],
  ◌∷◌, ℕ, zero, suc, reverse, length, ◌==◌, if◌then◌else◌,
}
use apohara_agentguard.Gate.Compound.{
  Cursor, Turn, start, one_turn, unquoted_turn, split_compound, leg_slice, legs_of_body, pushed_leg,
  opens_paren,
}
use apohara_agentguard.Gate.Compound.Measure.{one_turn-Ahead}
use apohara_agentguard.Gate.Compound.Equation.{run, run_nil, run_cons}
use apohara_agentguard.Gate.Compound.Whole.{split_compound-run}

-- Whether the text closes every quote and escape that it opens, and opens no substitution outside
-- quotes: told by the open quotes and by the backslash before the cursor.
unfoldable pub is_closed : Bool → Bool → Bool → Text → Bool
is_closed escaped double single [] = not escaped && not double && not single
is_closed true double single (c ∷ s) = is_closed false double single s
is_closed false double single (c ∷ s) =
    is_closed (not single && c == b'\\') (if c == b'"' && not single then not double else double)
      (if c == b'\'' && not double then not single else single) s
    && not (not double && not single && (opens_paren c s || c == b'`'))

-- `;` and the line break
abbrev pub ends_leg : ℕ → Bool
ends_leg c = c == b';' || c == b'\n'

-- The round on a text that goes on behind the separator.
abbrev Extends : ℕ → Text → Turn → Turn → Type 0
Extends sep b short long =
    (long ≡ record short { rest = short.rest ++ sep ∷ b })
    × (short.body ≡ none)
    × (is_closed false short.cursor.in_double short.cursor.in_single short.rest ≡ true)

turn-Extends :
    (sep : ℕ) (b : Text) (q : Cursor) (c : ℕ) (t : Text)
    → ends_leg sep ≡ true
    → is_closed false q.in_double q.in_single (c ∷ t) ≡ true
    → Extends sep b (one_turn [] q c t) (one_turn [] q c (t ++ sep ∷ b))
unfolding one_turn unquoted_turn is_closed
turn-Extends sep b q c [] e h = ground (arith, e, h)
turn-Extends sep b q c (d ∷ t) e h = ground (arith, e, h)

separator_turn :
    (sep : ℕ) (b : Text) (q : Cursor)
    → ends_leg sep ≡ true
    → is_closed false q.in_double q.in_single [] ≡ true
    → one_turn [] q sep b ≡ record { pushed = true; body = none; cursor = start; rest = b }
unfolding one_turn unquoted_turn is_closed
separator_turn sep b q e h = ground (arith, e, h)

run_extends :
    (sep : ℕ) (b : Text)
    → ends_leg sep ≡ true
    → (size : ℕ) (q : Cursor) (a : Text) → length a ≤ size
    → is_closed false q.in_double q.in_single a ≡ true
    → run q (a ++ sep ∷ b) ≡ run q a ++ run start b
run_extends sep b e size q [] fits h =
    run_cons q sep b
    ∙ rw (separator_turn sep b q e h, run_nil q)
        (append_assoc (leg_slice (reverse q.leg)) [] (run start b))
run_extends sep b e zero q (c ∷ t) fits h = ground arith
run_extends sep b e (suc size) q (c ∷ t) fits h =
    let short = one_turn [] q c t in
    let (same, bare, closed) = turn-Extends sep b q c t e h in
    let later =
      run_extends sep b e size short.cursor short.rest (omega (arith, (one_turn-Ahead [] q c t).1))
        closed in
    let begun = pushed_leg short q ++ legs_of_body split_compound short.body in
    run_cons q c (t ++ sep ∷ b)
    ∙ rw same (
        ap (◌++◌ begun) later
        ∙ sym (append_assoc begun (run short.cursor short.rest) (run start b)))
    ∙ ap (λ legs. legs ++ run start b) (sym (run_cons q c t))

-- A command in front of `;` or a line break, with its quotes closed and without an unquoted
-- substitution, gives its legs, and the text behind gives the legs that it gives alone, whatever
-- it holds.
pub split_compound-sequence :
    (a : Text) (sep : ℕ) (b : Text)
    → is_closed false false false a ≡ true
    → ends_leg sep ≡ true
    → split_compound (a ++ sep ∷ b) ≡ split_compound a ++ split_compound b
split_compound-sequence a sep b h e =
    split_compound-run (a ++ sep ∷ b)
    ∙ run_extends sep b e (length a) start a (omega arith) h
    ∙ rw (split_compound-run a, split_compound-run b) refl
