-- ===== src/Gate/Compound/Whole.antt =====
-- src/gate/compound.rs: what the early returns and the trim do to the legs.
use mathlib.Core.List.{reverse_aux}
use apohara_agentguard.Prelude.{
  ◌++◌, ◌≡◌, refl, sym, ◌∙◌, arith, Text, List, Bool, true, false, not, ◌&&◌, none, some, [], ◌∷◌,
  ◌⊎◌, Bool-cases, inl, inr, ℕ, Option, reverse, any, All, All-append, is_empty, trim,
  is_whitespace, contains_char, zero, suc, length, is_nil,
}
use apohara_agentguard.Prelude.Trim.{is_blank, trim_blank, trim-trim, all-reverse_aux}
use apohara_agentguard.Gate.Compound.{
  Cursor, Turn, start, one_turn, unquoted_turn, keep, separate, split_compound,
  split_compound_with_separators, split_by, walk_legs, leg_slice, legs_of_body, pushed_leg,
  is_special,
}
use apohara_agentguard.Gate.Compound.Equation.{run, run_nil, run_cons}

-- No quote is open.
abbrev pub is_open : Cursor → Bool
is_open q = not q.in_double && not q.in_single

plain_turn :
    (q : Cursor) (c : ℕ) (s : Text)
    → is_open q ≡ true
    → is_special c ≡ false
    → one_turn [] q c s ≡ keep q c s
unfolding one_turn unquoted_turn is_special contains_char
plain_turn q c s o h = ground (arith, o, h)

blank_turn :
    (q : Cursor) (c : ℕ) (s : Text)
    → is_open q ≡ true
    → is_whitespace c ≡ true
    → (one_turn [] q c s ≡ separate q s) ⊎ (one_turn [] q c s ≡ keep q c s)
unfolding one_turn unquoted_turn is_whitespace
blank_turn q c s o h = ground (arith, o, h)

leg_slice_blank : (s : Text) → is_blank s ≡ true → leg_slice s ≡ []
unfolding leg_slice
leg_slice_blank s h = rw (trim_blank s, h) refl

-- A text without special chars is one leg, together with what the cursor holds.
run_plain :
    (q : Cursor) (s : Text)
    → is_open q ≡ true
    → any is_special s ≡ false
    → run q s ≡ leg_slice (reverse_aux q.leg s)
run_plain q [] o h = run_nil q
run_plain q (c ∷ s) o h =
    let e = plain_turn q c s o (ground (arith, h)) in
    run_cons q c s ∙ rw e (run_plain (record q { leg = c ∷ q.leg }) s o (ground (arith, h)))

run_blank :
    (q : Cursor) (s : Text)
    → is_open q ≡ true
    → is_blank q.leg ≡ true
    → is_blank s ≡ true
    → run q s ≡ []
run_blank q [] o l h =
    run_nil q
    ∙ leg_slice_blank (reverse q.leg) (ground (arith, all-reverse_aux is_whitespace q.leg [], l))
run_blank q (c ∷ s) o l h = elim (blank_turn q c s o (ground (arith, h))) [
  | inl e ↦
      run_cons q c s
      ∙ rw
          (
            e,
            leg_slice_blank (reverse q.leg)
                (ground (arith, all-reverse_aux is_whitespace q.leg [], l)),
          )
          (run_blank (record q { leg = [] }) s o refl (ground (arith, h)))
  | inr e ↦
      run_cons q c s
      ∙ rw e
          (run_blank (record q { leg = c ∷ q.leg }) s o (ground (arith, l, h)) (ground (arith, h)))
]

split_whole :
    (command : Text) (special blank : Bool)
    → any is_special command ≡ special
    → is_empty (trim command) ≡ blank
    → split_compound command ≡ run start command
unfolding split_compound split_by
split_whole command false blank e f = rw e (sym (run_plain start command refl e))
split_whole command true false e f = rw (e, f) refl
split_whole command true true e f =
    rw (e, f) (sym (run_blank start command refl refl (sym (trim_blank command) ∙ f)))

-- The early returns of `split_compound`, for a command without special chars and for a blank one,
-- give the legs that its loop gives.
pub split_compound-run : (command : Text) → split_compound command ≡ run start command
split_compound-run command =
    split_whole command (any is_special command) (is_empty (trim command)) refl refl

-- A leg holds text, and no space stands at its ends.
abbrev pub IsTrimmed : Text → Type 0
IsTrimmed leg = (trim leg ≡ leg) × (is_empty leg ≡ false)

leg_slice-IsTrimmed : (s : Text) → All IsTrimmed (leg_slice s)
unfolding leg_slice
leg_slice-IsTrimmed s = elim (Bool-cases (is_empty (trim s))) [
  | inl h ↦ rw h tt
  | inr h ↦ rw h ((trim-trim s, h), tt)
]

pushed_leg-IsTrimmed : (turn : Turn) (q : Cursor) → All IsTrimmed (pushed_leg turn q)
pushed_leg-IsTrimmed turn q = elim (Bool-cases turn.pushed) [
  | inl h ↦ rw h (leg_slice-IsTrimmed (reverse q.leg))
  | inr h ↦ rw h tt
]

legs_of_body-IsTrimmed :
    (split : Text → List Text) (body : Option Text)
    → ((inner : Text) → All IsTrimmed (split inner))
    → All IsTrimmed (legs_of_body split body)
legs_of_body-IsTrimmed split none h = tt
legs_of_body-IsTrimmed split (some inner) h = h inner

split_by-IsTrimmed :
    (loop : Cursor → Text → List Text) (seps command : Text)
    → All IsTrimmed (loop start command)
    → All IsTrimmed (split_by loop seps command)
unfolding split_by
split_by-IsTrimmed loop seps command h =
    elim (Bool-cases (is_nil seps && not (any is_special command))) [
      | inl e ↦ rw e (leg_slice-IsTrimmed command)
      | inr e ↦ elim (Bool-cases (is_empty (trim command))) [
        | inl f ↦ rw (e, f) tt
        | inr f ↦ rw (e, f) h
      ]
    ]

walk_legs-IsTrimmed :
    (fuel : ℕ) (seps : Text) (q : Cursor) (s : Text) → All IsTrimmed (walk_legs fuel seps q s)
unfolding walk_legs
walk_legs-IsTrimmed zero seps q s = tt
walk_legs-IsTrimmed (suc fuel) seps q [] = leg_slice-IsTrimmed (reverse q.leg)
walk_legs-IsTrimmed (suc fuel) seps q (c ∷ s) =
    let turn = one_turn seps q c s in
    let split = λ (inner : Text). split_by (walk_legs fuel []) [] inner in
    All-append IsTrimmed (pushed_leg turn q ++ legs_of_body split turn.body)
      (walk_legs fuel seps turn.cursor turn.rest)
      (All-append IsTrimmed (pushed_leg turn q) (legs_of_body split turn.body)
        (pushed_leg-IsTrimmed turn q)
        (legs_of_body-IsTrimmed split turn.body (λ inner.
          split_by-IsTrimmed (walk_legs fuel []) [] inner
            (walk_legs-IsTrimmed fuel [] start inner))))
      (walk_legs-IsTrimmed fuel seps turn.cursor turn.rest)

-- Every leg of a command holds text, and no space stands at its ends, whatever the extra
-- separators.
pub split_compound_with_separators-IsTrimmed :
    (command seps : Text) → All IsTrimmed (split_compound_with_separators command seps)
unfolding split_compound_with_separators
split_compound_with_separators-IsTrimmed command seps =
    split_by-IsTrimmed (walk_legs (suc (length command)) seps) seps command
      (walk_legs-IsTrimmed (suc (length command)) seps start command)
