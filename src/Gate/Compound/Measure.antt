-- ===== src/Gate/Compound/Measure.antt =====
-- src/gate/compound.rs: a round of the loop moves on, and a body is shorter than the text that it
-- was found in.
use apohara_agentguard.Prelude.{
  ◌≤◌, arith, Text, Bool, true, false, none, some, [], ◌∷◌, length, ◌==◌, ℕ, Option,
}
use apohara_agentguard.Gate.Compound.{
  Body, Cursor, Turn, paren_body, backtick_body, extract_paren_body, extract_backtick_body,
  unquoted_turn, one_turn, next_depth, drop_one, keep_escaped,
}

-- The body and what stands behind it fit into `size` chars.
abbrev Fits : ℕ → Body → Type 0
Fits size b = (length b.inner ≤ size) × (length b.behind ≤ size)

paren_body-Fits :
    (escaped : Bool) (depth : ℕ) (s : Text) → Fits (length s) (paren_body escaped depth s)
unfolding paren_body
paren_body-Fits escaped depth [] = ground arith
paren_body-Fits true depth (c ∷ s) = ground (arith, paren_body-Fits false depth s)
paren_body-Fits false depth (c ∷ s) =
    ground (arith, paren_body-Fits (c == b'\\') (next_depth c depth) s)

backtick_body-Fits : (escaped : Bool) (s : Text) → Fits (length s) (backtick_body escaped s)
unfolding backtick_body
backtick_body-Fits escaped [] = ground arith
backtick_body-Fits true (c ∷ s) = ground (arith, backtick_body-Fits false s)
backtick_body-Fits false (c ∷ s) = ground (arith, backtick_body-Fits (c == b'\\') s)

abbrev pub body_length : Option Text → ℕ
body_length none = 0
body_length (some inner) = length inner

-- A round that reads one char leaves at most the text behind it.
abbrev pub Ahead : ℕ → Turn → Type 0
Ahead size turn = (body_length turn.body ≤ size) × (length turn.rest ≤ size)

drop_one-length : (s : Text) → length (drop_one s) ≤ length s
drop_one-length [] = omega arith
drop_one-length (c ∷ s) = omega arith

keep_escaped-Ahead : (q : Cursor) (c : ℕ) (s : Text) → Ahead (length s) (keep_escaped q c s)
keep_escaped-Ahead q c [] = ground arith
keep_escaped-Ahead q c (d ∷ s) = ground arith

unquoted_turn-Ahead :
    (seps : Text) (q : Cursor) (c : ℕ) (s : Text) → Ahead (length s) (unquoted_turn seps q c s)
unfolding unquoted_turn extract_paren_body extract_backtick_body
unquoted_turn-Ahead seps q c s =
    ground
      (arith, drop_one-length s, paren_body-Fits false 1 (drop_one s), backtick_body-Fits false s)

pub one_turn-Ahead :
    (seps : Text) (q : Cursor) (c : ℕ) (s : Text) → Ahead (length s) (one_turn seps q c s)
unfolding one_turn
one_turn-Ahead seps q c s = ground (arith, keep_escaped-Ahead q c s, unquoted_turn-Ahead seps q c s)
