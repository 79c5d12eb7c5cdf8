-- ===== src/Policy/Matcher.antt =====
-- The substring and `*` matchers of src/policy/matcher.rs, src/hook/dispatch.rs and
-- src/gate/packs/community.rs.
pub mod InOrder
pub mod Agree
mod Tests
use apohara_agentguard.Prelude.{
  ℕ, Text, codes, Bool, true, false, not, Option, none, some, List, [], ◌∷◌, filter, is_nil,
  is_empty, contains, contains_char, split_char, split_once, if◌then◌else◌,
}

-- The loop over the parts: each is looked for behind the one before.
pub parts_in_order : List Text → Text → Bool
parts_in_order [] value = true
parts_in_order (part ∷ parts) value = elim (split_once value part) [
  | none ↦ false
  | some (before, after) ↦ parts_in_order parts after
]

unfoldable pub parts_of : Text → List Text
parts_of pattern = filter (λ p. not (is_empty p)) (split_char b'*' pattern)

-- `pattern_matches` of src/policy/matcher.rs
unfoldable pub pattern_matches : Text → Text → Bool
pattern_matches pattern value =
    if is_empty pattern
    then false
    else if contains_char pattern b'*'
    then if is_nil (parts_of pattern)
      then not (is_empty value)
      else parts_in_order (parts_of pattern) value
    else contains value pattern

-- `arg_pattern_matches` of src/hook/dispatch.rs
unfoldable pub arg_pattern_matches : Text → Text → Bool
arg_pattern_matches pattern value =
    if contains_char pattern b'*'
    then parts_in_order (parts_of pattern) value
    else contains value pattern

-- `pattern_matches` of src/gate/packs/community.rs, which the custom blocks share
unfoldable pub community_pattern_matches : Text → Text → Bool
community_pattern_matches pattern text =
    if not (contains_char pattern b'*')
    then contains text pattern
    else parts_in_order (parts_of pattern) text
