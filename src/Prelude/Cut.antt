-- ===== src/Prelude/Cut.antt =====
-- What the cut at a char boundary returns: the longest run of leading chars that fits.
use Prim.Native.Nat.{ℕ, zero, suc, ◌-◌, ◌≤◌}
use mathlib.Core.Path.{◌≡◌, refl, ap}
use mathlib.Core.Bool.{true}
use mathlib.Core.Logic.{inl, inr}
use mathlib.Core.List.{[], ◌∷◌, ◌++◌}
use native.Mathlib.Omega.{arith}
use apohara_agentguard.Prelude.Tests.{leb, Bool-cases}
use apohara_agentguard.Prelude.Strings.{
  Text, len_utf8, byte_len, is_char_boundary, slice_to, floor_boundary,
}

-- `s[..end]` after the loop that moves `end` back to a boundary.
unfoldable pub cut : Text → ℕ → Text
unfolding slice_to floor_boundary
cut s max = slice_to s (floor_boundary s max)

len_utf8_pos : (c : ℕ) → 1 ≤ len_utf8 c
unfolding len_utf8
len_utf8_pos c = ground arith

pub floor_boundary-le : (s : Text) (e : ℕ) → floor_boundary s e ≤ e
unfolding floor_boundary
floor_boundary-le s zero = omega arith
floor_boundary-le s (suc e) = ground (arith, floor_boundary-le s e)

pub is_char_boundary-floor_boundary :
    (s : Text) (e : ℕ) → is_char_boundary s (floor_boundary s e) ≡ true
unfolding floor_boundary
is_char_boundary-floor_boundary [] zero = unfold is_char_boundary in refl
is_char_boundary-floor_boundary (c ∷ s) zero = unfold is_char_boundary in refl
is_char_boundary-floor_boundary s (suc e) = elim (Bool-cases (is_char_boundary s (suc e))) [
  | inl h ↦ rw h h
  | inr h ↦ rw h (is_char_boundary-floor_boundary s e)
]

-- No boundary at or below `e` is passed over.
pub floor_boundary_greatest :
    (s : Text) (e i : ℕ) → i ≤ e → is_char_boundary s i ≡ true → i ≤ floor_boundary s e
unfolding floor_boundary
floor_boundary_greatest s zero i h b = h
floor_boundary_greatest s (suc e) i h b = ground (arith, floor_boundary_greatest s e i)

byte_len-slice_to : (s : Text) (i : ℕ) → is_char_boundary s i ≡ true → byte_len (slice_to s i) ≡ i
unfolding byte_len slice_to is_char_boundary
byte_len-slice_to [] zero h = refl
byte_len-slice_to [] (suc i) h = cc
byte_len-slice_to (c ∷ s) zero h = ground (arith, len_utf8_pos c)
byte_len-slice_to (c ∷ s) (suc i) h = ground (arith, byte_len-slice_to s (suc i - len_utf8 c))

pub byte_len-cut : (s : Text) (max : ℕ) → byte_len (cut s max) ≡ floor_boundary s max
byte_len-cut s max =
    unfold cut in byte_len-slice_to s (floor_boundary s max) (is_char_boundary-floor_boundary s max)

slice_to_prefix : (s : Text) (i : ℕ) → (rest : Text) × (s ≡ slice_to s i ++ rest)
unfolding slice_to
slice_to_prefix [] i = ([], refl)
slice_to_prefix (c ∷ s) i = elim (Bool-cases (leb (len_utf8 c) i)) [
  | inl h ↦ let (rest, e) = slice_to_prefix s (i - len_utf8 c) in (rest, rw h (ap (◌∷◌ c) e))
  | inr h ↦ (c ∷ s, rw h)
]

-- The cut text begins the whole.
pub cut_prefix : (s : Text) (max : ℕ) → (rest : Text) × (s ≡ cut s max ++ rest)
unfolding cut
cut_prefix s max = slice_to_prefix s (floor_boundary s max)

pub byte_len-cut-le : (s : Text) (max : ℕ) → byte_len (cut s max) ≤ max
byte_len-cut-le s max = omega (arith, byte_len-cut s max, floor_boundary-le s max)
