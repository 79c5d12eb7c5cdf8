-- ===== src/Prelude/Trim.antt =====
-- What `trim` leaves.
use Prim.Native.Nat.{ℕ}
use mathlib.Core.Path.{◌≡◌, refl, sym, ap, ◌∙◌}
use mathlib.Core.Bool.{Bool, true, false, not, ◌&&◌}
use mathlib.Core.Logic.{inl, inr}
use mathlib.Core.List.{[], ◌∷◌, ◌++◌, reverse, reverse_aux, reverse-reverse, reverse-append}
use native.Mathlib.Omega.{arith}
use apohara_agentguard.Prelude.Tests.{Bool-cases}
use apohara_agentguard.Prelude.Lists.{all}
use apohara_agentguard.Prelude.Strings.{Text, is_whitespace, is_empty, trim_start, trim_end, trim}

abbrev pub is_blank : Text → Bool
is_blank s = all is_whitespace s

trim_start_blank : (s : Text) → is_empty (trim_start s) ≡ is_blank s
unfolding trim_start
trim_start_blank [] = refl
trim_start_blank (c ∷ s) = elim (Bool-cases (is_whitespace c)) [
  | inl h ↦ rw h (trim_start_blank s)
  | inr h ↦ rw h refl
]

pub all-reverse_aux : (p : ℕ → Bool) (s t : Text) → all p (reverse_aux s t) ≡ (all p s && all p t)
all-reverse_aux p [] t = refl
all-reverse_aux p (c ∷ s) t = ground (arith, all-reverse_aux p s (c ∷ t))

is_empty-reverse_aux : (s : Text) (d : ℕ) (t : Text) → is_empty (reverse_aux s (d ∷ t)) ≡ false
is_empty-reverse_aux [] d t = refl
is_empty-reverse_aux (c ∷ s) d t = is_empty-reverse_aux s c (d ∷ t)

is_empty-reverse : (s : Text) → is_empty (reverse s) ≡ is_empty s
is_empty-reverse [] = refl
is_empty-reverse (c ∷ s) = is_empty-reverse_aux s c []

trim_end_blank : (s : Text) → is_empty (trim_end s) ≡ is_blank s
unfolding trim_end
trim_end_blank s =
    is_empty-reverse (trim_start (reverse s))
    ∙ trim_start_blank (reverse s)
    ∙ ground (arith, all-reverse_aux is_whitespace s [])

-- A text without a leading space.
abbrev pub is_solid : Text → Bool
is_solid [] = true
is_solid (c ∷ s) = not (is_whitespace c)

trim_start_solid : (s : Text) → is_solid (trim_start s) ≡ true
unfolding trim_start
trim_start_solid [] = refl
trim_start_solid (c ∷ s) = elim (Bool-cases (is_whitespace c)) [
  | inl h ↦ rw h (trim_start_solid s)
  | inr h ↦ rw (h, h) refl
]

trim_start_fixed : (s : Text) → is_solid s ≡ true → trim_start s ≡ s
unfolding trim_start
trim_start_fixed [] h = refl
trim_start_fixed (c ∷ s) h = ground (arith, h)

is_blank-trim_start : (s : Text) → is_blank (trim_start s) ≡ is_blank s
unfolding trim_start
is_blank-trim_start [] = refl
is_blank-trim_start (c ∷ s) = elim (Bool-cases (is_whitespace c)) [
  | inl h ↦ rw h (is_blank-trim_start s)
  | inr h ↦ rw (h, h) refl
]

-- Nothing is left exactly of a text of spaces.
pub trim_blank : (s : Text) → is_empty (trim s) ≡ is_blank s
unfolding trim
trim_blank s = trim_end_blank (trim_start s) ∙ is_blank-trim_start s

trim_start_suffix : (s : Text) → (p : Text) × (s ≡ p ++ trim_start s)
unfolding trim_start
trim_start_suffix [] = ([], refl)
trim_start_suffix (c ∷ s) = elim (Bool-cases (is_whitespace c)) [
  | inl h ↦ let (p, e) = trim_start_suffix s in (c ∷ p, rw h (ap (◌∷◌ c) e))
  | inr h ↦ ([], rw h)
]

is_solid-left : (s t : Text) → is_solid (s ++ t) ≡ true → is_solid s ≡ true
is_solid-left [] t h = refl
is_solid-left (c ∷ s) t h = h

is_solid-trim_end : (s : Text) → is_solid s ≡ true → is_solid (trim_end s) ≡ true
unfolding trim_end
is_solid-trim_end s h =
    let (p, e) = trim_start_suffix (reverse s) in
    let whole =
      sym (reverse-reverse s) ∙ ap reverse e ∙ reverse-append p (trim_start (reverse s)) in
    is_solid-left (reverse (trim_start (reverse s))) (reverse p) (ap is_solid (sym whole) ∙ h)

trim_end-trim_end : (s : Text) → trim_end (trim_end s) ≡ trim_end s
unfolding trim_end
trim_end-trim_end s =
    ap (λ t. reverse (trim_start t)) (reverse-reverse (trim_start (reverse s)))
    ∙ ap reverse (trim_start_fixed (trim_start (reverse s)) (trim_start_solid (reverse s)))

-- A second trim changes nothing.
pub trim-trim : (s : Text) → trim (trim s) ≡ trim s
unfolding trim
trim-trim s =
    ap trim_end (
      trim_start_fixed (trim_end (trim_start s))
        (is_solid-trim_end (trim_start s) (trim_start_solid s)))
    ∙ trim_end-trim_end (trim_start s)
