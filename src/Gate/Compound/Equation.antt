-- ===== src/Gate/Compound/Equation.antt =====
-- src/gate/compound.rs: the fuel of the loop is enough, and the loop as one equation without fuel.
use apohara_agentguard.Prelude.{
  ◌≤◌, ◌<◌, suc, ◌++◌, ◌≡◌, refl, arith, Text, List, none, some, [], ◌∷◌, length, ℕ, zero, Option,
  reverse,
}
use apohara_agentguard.Gate.Compound.{
  Cursor, start, one_turn, walk_legs, split_by, split_compound, leg_slice, legs_of_body, pushed_leg,
}
use apohara_agentguard.Gate.Compound.Measure.{one_turn-Ahead, body_length}

split_by_pointwise :
    (f g : Cursor → Text → List Text) (seps inner : Text)
    → f start inner ≡ g start inner
    → split_by f seps inner ≡ split_by g seps inner
unfolding split_by
split_by_pointwise f g seps inner e = ground (arith, e)

legs_of_body_pointwise :
    (f g : Text → List Text) (size : ℕ) (body : Option Text)
    → body_length body ≤ size
    → ((inner : Text) → length inner ≤ size → f inner ≡ g inner)
    → legs_of_body f body ≡ legs_of_body g body
legs_of_body_pointwise f g size none h e = refl
legs_of_body_pointwise f g size (some inner) h e = e inner h

-- Any two amounts of fuel above the length of the text give the same legs.
pub walk_fuel :
    (n m : ℕ) (seps : Text) (q : Cursor) (s : Text)
    → length s < n
    → length s < m
    → walk_legs n seps q s ≡ walk_legs m seps q s
unfolding walk_legs
walk_fuel zero m seps q s h k = ground arith
walk_fuel (suc n) zero seps q s h k = ground arith
walk_fuel (suc n) (suc m) seps q [] h k = refl
walk_fuel (suc n) (suc m) seps q (c ∷ s) h k =
    let turn = one_turn seps q c s in
    let ahead = one_turn-Ahead seps q c s in
    let bodies =
      legs_of_body_pointwise (λ inner. split_by (walk_legs n []) [] inner)
        (λ inner. split_by (walk_legs m []) [] inner) (length s) turn.body ahead.0
        (λ inner fits.
          split_by_pointwise (walk_legs n []) (walk_legs m []) [] inner
            (walk_fuel n m [] start inner (omega arith) (omega arith))) in
    let later =
      walk_fuel n m seps turn.cursor turn.rest (omega (arith, ahead.1)) (omega (arith, ahead.1)) in
    rw (bodies, later)

-- The loop with enough fuel.
abbrev pub run : Cursor → Text → List Text
run q s = walk_legs (suc (length s)) [] q s

split_by_run :
    (n : ℕ) (inner : Text)
    → length inner < n
    → split_by (walk_legs n []) [] inner ≡ split_compound inner
unfolding split_compound
split_by_run n inner h =
    split_by_pointwise (walk_legs n []) (walk_legs (suc (length inner)) []) [] inner
      (walk_fuel n (suc (length inner)) [] start inner h (omega arith))

pub run_nil : (q : Cursor) → run q [] ≡ leg_slice (reverse q.leg)
unfolding walk_legs
run_nil q = refl

pub run_cons :
    (q : Cursor) (c : ℕ) (s : Text)
    → run q (c ∷ s)
      ≡ pushed_leg (one_turn [] q c s) q
        ++ legs_of_body split_compound (one_turn [] q c s).body
        ++ run (one_turn [] q c s).cursor (one_turn [] q c s).rest
unfolding walk_legs
run_cons q c s =
    let turn = one_turn [] q c s in
    let ahead = one_turn-Ahead [] q c s in
    let bodies =
      legs_of_body_pointwise (λ inner. split_by (walk_legs (suc (length s)) []) [] inner)
        split_compound (length s) turn.body ahead.0
        (λ inner fits. split_by_run (suc (length s)) inner (omega arith)) in
    let later =
      walk_fuel (suc (length s)) (suc (length turn.rest)) [] turn.cursor turn.rest
        (omega (arith, ahead.1)) (omega arith) in
    rw (bodies, later)
