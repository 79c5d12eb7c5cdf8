-- ===== src/Policy/Matcher/InOrder.antt =====
-- The greedy search for the parts of a pattern, and what it looks for.
use mathlib.Core.List.{append_assoc}
use apohara_agentguard.Prelude.{
  ◌≤◌, Text, true, none, some, List, [], ◌∷◌, ◌++◌, ◌≡◌, ◌↔◌, ◌∙◌, refl, sym, ap, inl, inr, arith,
  length, length-append, strip_prefix, split_once, ◌==◌, Bool-cases, Option-cases,
}
use apohara_agentguard.Policy.Matcher.{parts_in_order}

-- The parts occur in the text one behind the other, with anything before, between and behind.
pub data InOrder : List Text → Text → Type 0 where
  done : {value : Text} → InOrder [] value
  next :
      {part : Text} {parts : List Text} {value : Text} (before after : Text)
      → value ≡ before ++ (part ++ after)
      → InOrder parts after
      → InOrder (part ∷ parts) value

pub strip_prefix_sound : (s p : Text) {rest : Text} → strip_prefix s p ≡ some rest → s ≡ p ++ rest
unfolding strip_prefix
strip_prefix_sound s [] h = cc
strip_prefix_sound [] (d ∷ p) h = cc
strip_prefix_sound (c ∷ s) (d ∷ p) h = elim (Bool-cases (c == d)) [
  | inl e ↦ ground (arith, strip_prefix_sound s p (rw e at h))
  | inr e ↦ cc (rw e at h)
]

pub strip_prefix-append : (p rest : Text) → strip_prefix (p ++ rest) p ≡ some rest
unfolding strip_prefix
strip_prefix-append [] rest = refl
strip_prefix-append (c ∷ p) rest = ground (arith, strip_prefix-append p rest)

pub split_once_sound :
    (s p : Text) {before after : Text}
    → split_once s p ≡ some (before, after)
    → s ≡ before ++ (p ++ after)
unfolding split_once
split_once_sound [] p h = elim (Option-cases (strip_prefix [] p)) [
  | inl e ↦ cc (rw e at h)
  | inr (rest, e) ↦ ground (arith, strip_prefix_sound [] p e, rw e at h)
]
split_once_sound (c ∷ s) p h = elim (Option-cases (strip_prefix (c ∷ s) p)) [
  | inr (rest, e) ↦ ground (arith, strip_prefix_sound (c ∷ s) p e, rw e at h)
  | inl e ↦ elim (Option-cases (split_once s p)) [
    | inl f ↦ cc (rw (e, f) at h)
    | inr ((b, a), f) ↦ ground (arith, split_once_sound s p f, rw (e, f) at h)
  ]
]

-- Of two ways to cut a text, the later cut's rest ends the earlier cut's.
suffix_of_shorter :
    (x y b c : Text) → x ++ b ≡ y ++ c → length x ≤ length y → (t : Text) × (b ≡ t ++ c)
suffix_of_shorter [] y b c e h = (y, e)
suffix_of_shorter (x ∷ xs) [] b c e h = absurd (omega arith)
suffix_of_shorter (x ∷ xs) (y ∷ ys) b c e h = suffix_of_shorter xs ys b c (cc e) (omega arith)

InOrder-earlier :
    {parts : List Text} (t after : Text) → InOrder parts after → InOrder parts (t ++ after)
InOrder-earlier t after done = done
InOrder-earlier t after (next {part} before rest e o) =
    next (t ++ before) rest (ap (◌++◌ t) e ∙ sym (append_assoc t before (part ++ rest))) o

split_once_here :
    (value part before after : Text) {rest : Text}
    → strip_prefix value part ≡ some rest
    → value ≡ before ++ (part ++ after)
    → (t : Text) × (rest ≡ t ++ after)
split_once_here value part before after {rest} f e =
    suffix_of_shorter part (before ++ part) rest after
      (sym (strip_prefix_sound value part f) ∙ e ∙ sym (append_assoc before part after))
      (omega (arith, length-append before part))

nil_strip :
    (part before after : Text)
    → strip_prefix [] part ≡ none
    → ◌≡◌ {A = Text} [] (before ++ (part ++ after))
    → ⊥
nil_strip [] before after f e = unfold strip_prefix in cc f
nil_strip (d ∷ part) [] after f e = cc e
nil_strip (d ∷ part) (b ∷ bs) after f e = cc e

-- A part that occurs is found, and what stands behind its first occurrence is no less.
split_once_complete :
    (value part before after : Text)
    → value ≡ before ++ (part ++ after)
    → (b a t : Text) × (split_once value part ≡ some (b, a)) × (a ≡ t ++ after)
unfolding split_once
split_once_complete [] part before after e = elim (Option-cases (strip_prefix [] part)) [
  | inr (rest, f) ↦ let (t, g) = split_once_here [] part before after f e in ([], rest, t, rw f, g)
  | inl f ↦ absurd (nil_strip part before after f e)
]
split_once_complete (c ∷ s) part [] after e =
    let f = rw (sym e) at (strip_prefix-append part after) in
    let (t, g) = split_once_here (c ∷ s) part [] after f e in ([], after, t, rw f, g)
split_once_complete (c ∷ s) part (d ∷ bs) after e =
    elim (Option-cases (strip_prefix (c ∷ s) part)) [
      | inr (rest, f) ↦
          let (t, g) = split_once_here (c ∷ s) part (d ∷ bs) after f e in ([], rest, t, rw f, g)
      | inl f ↦
          let (b, a, t, g, h) = split_once_complete s part bs after (cc e) in
          (c ∷ b, a, t, rw (f, g), h)
    ]

parts_in_order_sound :
    (parts : List Text) (value : Text) → parts_in_order parts value ≡ true → InOrder parts value
unfolding parts_in_order
parts_in_order_sound [] value h = done
parts_in_order_sound (part ∷ parts) value h = elim (Option-cases (split_once value part)) [
  | inl e ↦ cc (rw (e, parts_in_order) at h)
  | inr ((b, a), e) ↦
      next b a (split_once_sound value part e)
        (parts_in_order_sound parts a (rw (e, parts_in_order) at h))
]

parts_in_order_complete :
    (parts : List Text) (value : Text) → InOrder parts value → parts_in_order parts value ≡ true
unfolding parts_in_order
parts_in_order_complete [] value o = refl
parts_in_order_complete (part ∷ parts) value (next before after e o) =
    let (b, a, t, f, g) = split_once_complete value part before after e in
    rw (f, parts_in_order) (parts_in_order_complete parts a (rw g (InOrder-earlier t after o)))

-- The greedy loop answers yes exactly when the parts occur in the value in their order.
pub parts_in_order_iff :
    (parts : List Text) (value : Text) → (parts_in_order parts value ≡ true) ↔ InOrder parts value
parts_in_order_iff parts value =
    (parts_in_order_sound parts value, parts_in_order_complete parts value)
