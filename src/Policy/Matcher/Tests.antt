-- ===== src/Policy/Matcher/Tests.antt =====
-- The matcher on small patterns.
use apohara_agentguard.Prelude.{codes, true, false, [], ◌∷◌, ◌≡◌, ◌↔◌, refl, is_nil, split_char}
use apohara_agentguard.Policy.Matcher.InOrder.{InOrder, parts_in_order_iff}
use apohara_agentguard.Policy.Matcher.Agree.{pattern_matches_no_text}
use apohara_agentguard.Policy.Matcher.{
  parts_in_order, parts_of, pattern_matches, arg_pattern_matches,
}

parts_in_order_iff_example :
    (parts_in_order (codes "curl" ∷ codes "sh" ∷ []) (codes "curl x | sh") ≡ true)
    ↔ InOrder (codes "curl" ∷ codes "sh" ∷ []) (codes "curl x | sh")
parts_in_order_iff_example =
    parts_in_order_iff (codes "curl" ∷ codes "sh" ∷ []) (codes "curl x | sh")

stars_no_text : is_nil (parts_of (codes "**")) ≡ true
unfolding parts_of split_char
stars_no_text = refl

pattern_matches_no_text_example :
    (arg_pattern_matches (codes "**") [] ≡ true) × (pattern_matches (codes "**") [] ≡ false)
pattern_matches_no_text_example = pattern_matches_no_text (codes "**") [] stars_no_text
