-- ===== src/Gate/Resolve/Expand.antt =====
-- src/gate/resolve.rs: the expansion of the references in a leg, and the walk over the legs.
pub mod Alias
use apohara_agentguard.Prelude.{
  ℕ, zero, suc, Text, codes, Bool, true, false, ◌&&◌, ◌||◌, Option, none, some, List, [], ◌∷◌, ◌++◌,
  any, length, is_empty, contains_char, split_once, starts_with, eq_text, trim, ◌==◌, if◌then◌else◌,
}
use apohara_agentguard.Contract.{and_then, or_else}
use apohara_agentguard.Gate.Resolve.{
  is_name_char, is_valid_var_name, strip_quotes_borrowed, parse_assignment,
}

abbrev pub Vars : Type 0
Vars = List (Text × Text)

-- `vars.get(name)`
unfoldable pub lookup_var : Text → Vars → Option Text
lookup_var name [] = none
lookup_var name ((key, value) ∷ vars) =
    let rest = lookup_var name vars in if eq_text name key then some value else rest

pub data ParamExpansion : Type 0 where
  plain : Text → ParamExpansion
  with_default : Text → Text → Text → ParamExpansion

-- `name`, `op` and `default` of the first operator that leaves a name in front.
first_operator : List Text → Text → Option ParamExpansion
first_operator [] inner = none
first_operator (op ∷ ops) inner =
    let rest = first_operator ops inner in
    elim (split_once inner op) [
      | none ↦ rest
      | some (name, default) ↦
          if is_valid_var_name (trim name)
          then some (with_default (trim name) op (strip_quotes_borrowed (trim default)))
          else rest
    ]

parse_param_expansion : Text → Option ParamExpansion
unfolding first_operator
parse_param_expansion inner =
    if is_valid_var_name (trim inner)
    then some (plain (trim inner))
    else first_operator (codes ":-" ∷ codes ":=" ∷ codes "-" ∷ codes "=" ∷ []) (trim inner)

-- The value that stands, when one does: `:-` and `:=` pass over an empty one.
abbrev standing : Text → Option Text → Option Text
standing op none = none
standing op (some v) = if starts_with op (codes ":") && is_empty v then none else some v

abbrev assigns : Text → Bool
assigns op = eq_text op (codes ":=") || eq_text op (codes "=")

-- The replacement and the variables behind it. The last arm of the code, for another operator, is
-- not met.
evaluate_param_expansion : ParamExpansion → Vars → Option (Text × Vars)
evaluate_param_expansion (plain name) vars = and_then (lookup_var name vars) (λ v. some (v, vars))
evaluate_param_expansion (with_default name op default) vars =
    elim (standing op (lookup_var name vars)) [
      | some v ↦ some (v, vars)
      | none ↦ some (default, if assigns op then (name, default) ∷ vars else vars)
    ]

-- The name chars at the front, and the rest.
unfoldable take_name : Text → Text × Text
take_name [] = ([], [])
take_name (c ∷ s) =
    let (name, rest) = take_name s in if is_name_char c then (c ∷ name, rest) else ([], c ∷ s)

-- A reference behind a `$`: its replacement, the variables, and the text behind it.
unfoldable reference : Vars → Text → Option (Text × Vars × Text)
unfolding take_name parse_param_expansion evaluate_param_expansion
reference vars [] = none
reference vars (c ∷ s) =
    if c == b'{'
    then and_then (split_once s (codes "}")) (λ (inner, behind).
      and_then (and_then (parse_param_expansion inner) (λ pe. evaluate_param_expansion pe vars))
        (λ (value, later). some (value, later, behind)))
    else let (name, behind) = take_name (c ∷ s) in
      if is_empty name
      then none
      else and_then (lookup_var name vars) (λ value. some (value, vars, behind))

-- The text of a pass, the variables behind it, and whether it changed.
abbrev Passed : Type 0
Passed = Text × Vars × Bool

abbrev found : ℕ → Vars → Text → Option (Text × Vars × Text)
found c vars s = if c == b'$' then reference vars s else none

-- The loop of `expand_vars_pass`, with the rounds bounded by `fuel`.
unfoldable pass : ℕ → Vars → Text → Passed
unfolding reference
pass zero vars s = ([], vars, false)
pass (suc fuel) vars [] = ([], vars, false)
pass (suc fuel) vars (c ∷ s) = elim (found c vars s) [
  | none ↦ let (out, later, changed) = pass fuel vars s in (c ∷ out, later, changed)
  | some (value, next, behind) ↦
      let (out, later, changed) = pass fuel next behind in (value ++ out, later, true)
]

unfoldable expand_vars_pass : Vars → Text → Passed
unfolding pass
expand_vars_pass vars text =
    if contains_char text b'$' then pass (suc (length text)) vars text else (text, vars, false)

unfoldable expand_rounds : ℕ → Vars → Text → Bool → Passed
unfolding expand_vars_pass
expand_rounds zero vars current changed = (current, vars, changed)
expand_rounds (suc n) vars current changed =
    let (next, later, again) = expand_vars_pass vars current in
    if again then expand_rounds n later next true else (current, later, changed)

unfoldable expand_vars : Vars → Text → Passed
unfolding expand_rounds
expand_vars vars text = expand_rounds 8 vars text false

abbrev insert_found : Option (Text × Text) → Vars → Vars
insert_found none vars = vars
insert_found (some binding) vars = binding ∷ vars

unfoldable resolve_legs : Vars → List Text → List Text
unfolding expand_vars
resolve_legs vars [] = []
resolve_legs vars (leg ∷ legs) =
    let (expanded, later, changed) = expand_vars vars leg in
    (if changed then expanded else leg)
    ∷ resolve_legs (insert_found (or_else (parse_assignment expanded) (parse_assignment leg)) later)
        legs

unfoldable pub resolve_assignments : List Text → List Text
unfolding resolve_legs
resolve_assignments legs =
    if any (λ l. contains_char l b'=' || contains_char l b'$') legs
    then resolve_legs [] legs
    else legs
