-- ===== src/Gate/Resolve/Expand/Alias.antt =====
-- src/gate/resolve.rs: an assignment to a plain value, and a later leg that starts with its name.
use apohara_agentguard.Prelude.{
  ℕ, zero, suc, ◌<◌, ◌≡◌, refl, ap, ◌∙◌, arith, Text, Bool, true, false, not, ◌||◌, none, some, [],
  ◌∷◌, ◌++◌, any, all, length, length-append, contains_char, eq_text_refl, ◌==◌,
  is_ascii_alphabetic, is_ascii_alphanumeric,
}
use apohara_agentguard.Gate.Resolve.{is_name_char, is_valid_var_name, parse_assignment}
use apohara_agentguard.Gate.Resolve.Expand.{
  Vars, Passed, lookup_var, take_name, reference, found, pass, expand_vars_pass, expand_rounds,
  expand_vars, resolve_legs, resolve_assignments,
}

-- The text does not go on with a char of a name.
abbrev pub ends_name : Text → Bool
ends_name [] = true
ends_name (c ∷ s) = not (is_name_char c)

take_name-append :
    (name rest : Text)
    → all is_name_char name ≡ true
    → ends_name rest ≡ true
    → take_name (name ++ rest) ≡ (name, rest)
unfolding take_name
take_name-append [] [] h e = refl
take_name-append [] (c ∷ s) h e = ground (arith, e)
take_name-append (c ∷ name) rest h e = ground (arith, h, take_name-append name rest)

valid_chars : (name : Text) → is_valid_var_name name ≡ true → all is_name_char name ≡ true
unfolding is_valid_var_name is_ascii_alphanumeric
valid_chars [] h = cc
valid_chars (c ∷ s) h = ground (arith, h)

no_brace : (c : ℕ) → is_name_char c ≡ true → (c == b'{') ≡ false
unfolding is_ascii_alphanumeric is_ascii_alphabetic
no_brace c h = ground (arith, h)

pass_plain :
    (fuel : ℕ) (vars : Vars) (s : Text)
    → contains_char s b'$' ≡ false
    → length s < fuel
    → pass fuel vars s ≡ (s, vars, false)
unfolding pass contains_char
pass_plain zero vars s h k = ground (arith, k)
pass_plain (suc fuel) vars [] h k = refl
pass_plain (suc fuel) vars (c ∷ s) h k =
    let quiet : (c == b'$') ≡ false = ground (arith, h) in
    let skipped : found c vars s ≡ none = rw quiet refl in
    rw (pass, skipped, pass_plain fuel vars s (ground (arith, h)) (omega (arith, k))) refl

reference_alias :
    (vars : Vars) (name value rest : Text)
    → is_valid_var_name name ≡ true
    → ends_name rest ≡ true
    → reference ((name, value) ∷ vars) (name ++ rest) ≡ some (value, (name, value) ∷ vars, rest)
unfolding reference lookup_var
reference_alias vars [] value rest h e = unfold is_valid_var_name in cc
reference_alias vars (c ∷ name) value rest h e =
    let named = valid_chars (c ∷ name) h in
    rw
      (
        no_brace c (ground (arith, named)),
        take_name-append (c ∷ name) rest named e,
        eq_text_refl (c ∷ name),
      )
      refl

contains_char-append :
    (s t : Text) (d : ℕ) → contains_char (s ++ t) d ≡ (contains_char s d || contains_char t d)
unfolding contains_char
contains_char-append [] t d = refl
contains_char-append (c ∷ s) t d = ground (arith, contains_char-append s t d)

round_changed :
    (n : ℕ) (vars later : Vars) (s next : Text) (c : Bool)
    → expand_vars_pass vars s ≡ (next, later, true)
    → expand_rounds (suc n) vars s c ≡ expand_rounds n later next true
unfolding expand_rounds
round_changed n vars later s next c e = rw e refl

round_plain :
    (n : ℕ) (vars : Vars) (s : Text) (c : Bool)
    → contains_char s b'$' ≡ false
    → expand_rounds n vars s c ≡ (s, vars, c)
unfolding expand_rounds expand_vars_pass
round_plain zero vars s c h = refl
round_plain (suc n) vars s c h = rw h refl

pass_found :
    (n : ℕ) (vars : Vars) (s value : Text) (next : Vars) (behind : Text)
    → reference vars s ≡ some (value, next, behind)
    → pass (suc n) vars (b'$' ∷ s) ≡ (value ++ (pass n next behind).0, (pass n next behind).1, true)
unfolding pass
pass_found n vars s value next behind e = rw (pass, e) refl

pass_alias :
    (vars : Vars) (name value rest : Text)
    → is_valid_var_name name ≡ true
    → ends_name rest ≡ true
    → contains_char rest b'$' ≡ false
    → expand_vars_pass ((name, value) ∷ vars) (b'$' ∷ name ++ rest)
      ≡ (value ++ rest, (name, value) ∷ vars, true)
unfolding expand_vars_pass pass contains_char
pass_alias vars name value rest h e r =
    let bound = (name, value) ∷ vars in
    pass_found (suc (length (name ++ rest))) bound (name ++ rest) value bound rest
      (reference_alias vars name value rest h e)
    ∙ ap (λ (p : Passed). (value ++ p.0, p.1, true))
        (pass_plain (suc (length (name ++ rest))) bound rest r
          (omega (arith, length-append name rest)))

uses_reference :
    (first s : Text)
    → any (λ l. contains_char l b'=' || contains_char l b'$') (first ∷ (b'$' ∷ s) ∷ []) ≡ true
unfolding contains_char
uses_reference first s = ground arith

-- Behind a leg that assigns a value without `$` to a name, a leg that starts with the reference to
-- the name and holds no other `$` is read with the value in its place; the first leg is kept.
pub resolve_assignments-alias :
    (first name value rest : Text)
    → contains_char first b'$' ≡ false
    → parse_assignment first ≡ some (name, value)
    → is_valid_var_name name ≡ true
    → ends_name rest ≡ true
    → contains_char value b'$' ≡ false
    → contains_char rest b'$' ≡ false
    → resolve_assignments (first ∷ (b'$' ∷ name ++ rest) ∷ []) ≡ first ∷ (value ++ rest) ∷ []
unfolding resolve_assignments resolve_legs expand_vars
resolve_assignments-alias first name value rest f p h e v r =
    let bound : Vars = (name, value) ∷ [] in
    let quiet : contains_char (value ++ rest) b'$' ≡ false =
      ground (arith, contains_char-append value rest b'$', v, r) in
    let second : expand_rounds 8 bound (b'$' ∷ name ++ rest) false ≡ (value ++ rest, bound, true) =
      round_changed 7 bound bound (b'$' ∷ name ++ rest) (value ++ rest) false
        (pass_alias [] name value rest h e r)
      ∙ round_plain 7 bound (value ++ rest) true quiet in
    rw (uses_reference first (name ++ rest), round_plain 8 [] first false f, p, second) refl
