-- ===== src/Policy/Matcher/Agree.antt =====
-- Where the three copies of the matcher agree, and where they do not.
use apohara_agentguard.Prelude.{
  ℕ, Text, true, false, not, ◌&&◌, List, [], ◌∷◌, ◌≡◌, refl, inl, inr, arith, is_nil, is_empty,
  contains, contains_char, split_char, split_once, strip_prefix, Bool-cases,
}
use apohara_agentguard.Policy.Matcher.{
  parts_in_order, parts_of, pattern_matches, arg_pattern_matches, community_pattern_matches,
}

split_char_none : (d : ℕ) (s : Text) → contains_char s d ≡ false → split_char d s ≡ s ∷ []
unfolding contains_char split_char
split_char_none d [] h = refl
split_char_none d (c ∷ s) h = ground (arith, split_char_none d s)

-- A pattern with text and no star has itself for its one part.
parts_of_plain :
    (c : ℕ) (s : Text) → contains_char (c ∷ s) b'*' ≡ false → is_nil (parts_of (c ∷ s)) ≡ false
unfolding parts_of
parts_of_plain c s h = rw (split_char_none b'*' (c ∷ s) h)

parts_in_order_nil :
    (parts : List Text) (value : Text) → is_nil parts ≡ true → parts_in_order parts value ≡ true
unfolding parts_in_order
parts_in_order_nil [] value h = refl
parts_in_order_nil (p ∷ ps) value h = cc

contains_nil : (s : Text) → contains s [] ≡ true
unfolding contains split_once strip_prefix
contains_nil [] = refl
contains_nil (c ∷ s) = refl

-- The hook's copy and the community packs' copy are one function.
pub arg_pattern_matches-eq-community :
    (pattern value : Text)
    → arg_pattern_matches pattern value ≡ community_pattern_matches pattern value
unfolding arg_pattern_matches community_pattern_matches
arg_pattern_matches-eq-community pattern value = ground arith

-- On a pattern with some text between its stars the policy's copy agrees with the hook's.
pub pattern_matches-eq-arg :
    (pattern value : Text)
    → is_nil (parts_of pattern) ≡ false
    → pattern_matches pattern value ≡ arg_pattern_matches pattern value
pattern_matches-eq-arg [] value h = unfold parts_of split_char in cc h
pattern_matches-eq-arg (c ∷ s) value h =
    unfold pattern_matches arg_pattern_matches in ground (arith, h)

-- On a pattern without text, empty or all stars, the hook's copy accepts every value; the policy's
-- refuses the empty pattern, and the empty value.
pub pattern_matches_no_text :
    (pattern value : Text)
    → is_nil (parts_of pattern) ≡ true
    → (arg_pattern_matches pattern value ≡ true)
      × (pattern_matches pattern value ≡ (not (is_empty pattern) && not (is_empty value)))
unfolding pattern_matches arg_pattern_matches
pattern_matches_no_text [] value h = (unfold contains_char in contains_nil value, refl)
pattern_matches_no_text (c ∷ s) value h = elim (Bool-cases (contains_char (c ∷ s) b'*')) [
  | inl e ↦ ground (arith, e, parts_in_order_nil (parts_of (c ∷ s)) value h)
  | inr e ↦ cc (h, parts_of_plain c s e)
]
