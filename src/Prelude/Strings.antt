-- ===== src/Prelude/Strings.antt =====
-- A Rust `str` as the list of its `char`s (Unicode scalar values), with the methods of `str` that
-- the program calls. Byte offsets count the bytes of the UTF-8 form.
use Prim.Native.Nat.{ℕ, zero, suc, ◌+◌, ◌-◌}
use Prim.Native.Char.{code}
use Prim.Native.String.{String}
use mathlib.Core.Path.{◌≡◌, refl}
use mathlib.Core.Logic.{◌↔◌}
use mathlib.Core.Bool.{Bool, true, false, ◌&&◌, ◌||◌}
use mathlib.Core.Option.{Option, none, some}
use mathlib.Core.List.{List, [], ◌∷◌, map, reverse}
use native.Mathlib.Omega.{arith}
use apohara_agentguard.Prelude.Tests.{ltb, leb, ◌==◌, if◌then◌else◌}
use apohara_agentguard.Prelude.Lists.{any}

abbrev pub Text : Type 0
Text = List ℕ

-- A literal as text.
abbrev pub codes : String → Text
codes String.[] = []
codes (String.◌∷◌ c s) = code c ∷ codes s

-- `a == b`
unfoldable pub eq_text : Text → Text → Bool
eq_text [] [] = true
eq_text (x ∷ xs) (y ∷ ys) = x == y && eq_text xs ys
eq_text _ _ = false

pub eq_text_iff : (a b : Text) → (eq_text a b ≡ true) ↔ (a ≡ b)
unfolding eq_text
eq_text_iff [] [] = ground arith
eq_text_iff [] (y ∷ ys) = ground arith
eq_text_iff (x ∷ xs) [] = ground arith
eq_text_iff (x ∷ xs) (y ∷ ys) = ground (arith, eq_text_iff xs ys)

pub eq_text_refl : (a : Text) → eq_text a a ≡ true
eq_text_refl a = (eq_text_iff a a).1 refl

-- `list.contains(&x)` for a list of strings
abbrev pub contains_text : List Text → Text → Bool
contains_text xs t = any (λ x. eq_text x t) xs

abbrev pub is_empty : Text → Bool
is_empty [] = true
is_empty (c ∷ s) = false

-- `char::is_whitespace`
unfoldable pub is_whitespace : ℕ → Bool
is_whitespace c =
    (leb 9 c && leb c 13)
    || c == 32
    || c == 0x85
    || c == 0xA0
    || c == 0x1680
    || (leb 0x2000 c && leb c 0x200A)
    || c == 0x2028
    || c == 0x2029
    || c == 0x202F
    || c == 0x205F
    || c == 0x3000

unfoldable pub is_ascii_alphabetic : ℕ → Bool
is_ascii_alphabetic c = (leb b'a' c && leb c b'z') || (leb b'A' c && leb c b'Z')

unfoldable pub is_ascii_alphanumeric : ℕ → Bool
unfolding is_ascii_alphabetic
is_ascii_alphanumeric c = is_ascii_alphabetic c || (leb b'0' c && leb c b'9')

-- `trim_start`
unfoldable pub trim_start : Text → Text
unfolding is_whitespace
trim_start [] = []
trim_start (c ∷ s) = let rest = trim_start s in if is_whitespace c then rest else c ∷ s

-- `trim_end`
unfoldable pub trim_end : Text → Text
unfolding trim_start
trim_end s = reverse (trim_start (reverse s))

-- `trim`
unfoldable pub trim : Text → Text
unfolding trim_start trim_end
trim s = trim_end (trim_start s)

-- `s.strip_prefix(p)`
unfoldable pub strip_prefix : Text → Text → Option Text
strip_prefix s [] = some s
strip_prefix [] (d ∷ p) = none
strip_prefix (c ∷ s) (d ∷ p) = let rest = strip_prefix s p in if c == d then rest else none

abbrev is_some {ℓ} : {A : Type ℓ} → Option A → Bool
is_some none = false
is_some (some a) = true

-- `s.starts_with(p)`
unfoldable pub starts_with : Text → Text → Bool
unfolding strip_prefix
starts_with s p = is_some (strip_prefix s p)

-- `s.ends_with(p)`
unfoldable pub ends_with : Text → Text → Bool
unfolding starts_with
ends_with s p = starts_with (reverse s) (reverse p)

abbrev step_before : ℕ → Option (Text × Text) → Option (Text × Text)
step_before c none = none
step_before c (some (before, after)) = some (c ∷ before, after)

abbrev first_of_two : Option Text → Option (Text × Text) → Option (Text × Text)
first_of_two (some after) later = some ([], after)
first_of_two none later = later

-- `s.split_once(p)`: what stands before and behind the first occurrence of `p`. The offset that
-- `s.find(p)` returns is the byte length of the first part.
unfoldable pub split_once : Text → Text → Option (Text × Text)
unfolding strip_prefix
split_once [] p = first_of_two (strip_prefix [] p) none
split_once (c ∷ s) p =
    let later = step_before c (split_once s p) in first_of_two (strip_prefix (c ∷ s) p) later

-- `s.contains(p)`
unfoldable pub contains : Text → Text → Bool
unfolding split_once
contains s p = is_some (split_once s p)

-- `s.contains(c)` for a char
unfoldable pub contains_char : Text → ℕ → Bool
contains_char s c = any (λ d. d == c) s

abbrev put_first : ℕ → List Text → List Text
put_first c [] = (c ∷ []) ∷ []
put_first c (p ∷ ps) = (c ∷ p) ∷ ps

-- `s.split(c)` for a char
unfoldable pub split_char : ℕ → Text → List Text
split_char d [] = [] ∷ []
split_char d (c ∷ s) = let rest = split_char d s in if c == d then [] ∷ rest else put_first c rest

-- `to_ascii_lowercase`
unfoldable pub to_ascii_lowercase : Text → Text
to_ascii_lowercase = map (λ c. if leb b'A' c && leb c b'Z' then c + 32 else c)

-- `char::len_utf8`
unfoldable pub len_utf8 : ℕ → ℕ
len_utf8 c = if ltb c 0x80 then 1 else if ltb c 0x800 then 2 else if ltb c 0x10000 then 3 else 4

-- `s.len()`, in bytes
unfoldable pub byte_len : Text → ℕ
unfolding len_utf8
byte_len [] = 0
byte_len (c ∷ s) = len_utf8 c + byte_len s

-- `s.is_char_boundary(i)`
unfoldable pub is_char_boundary : Text → ℕ → Bool
unfolding len_utf8
is_char_boundary s zero = true
is_char_boundary [] (suc i) = false
is_char_boundary (c ∷ s) (suc i) =
    leb (len_utf8 c) (suc i) && is_char_boundary s (suc i - len_utf8 c)

-- `&s[..i]`; at an offset that is no boundary Rust panics, and this drops the broken char
unfoldable pub slice_to : Text → ℕ → Text
unfolding len_utf8
slice_to [] i = []
slice_to (c ∷ s) i =
    let rest = slice_to s (i - len_utf8 c) in if leb (len_utf8 c) i then c ∷ rest else []

-- `while end > 0 && !s.is_char_boundary(end) { end -= 1; }`
unfoldable pub floor_boundary : Text → ℕ → ℕ
unfolding is_char_boundary
floor_boundary s zero = zero
floor_boundary s (suc e) =
    let rest = floor_boundary s e in if is_char_boundary s (suc e) then suc e else rest
