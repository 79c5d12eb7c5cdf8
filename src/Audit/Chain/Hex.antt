-- ===== src/Audit/Chain/Hex.antt =====
-- The digits of a digest: what `hex` prints, `is_hex64` accepts.
use apohara_agentguard.Prelude.{
  ℕ, ◌*◌, ◌/◌, ◌%◌, ◌<◌, true, List, [], ◌∷◌, ◌≡◌, refl, arith, length, all, All, byte_len,
  len_utf8,
}
use apohara_agentguard.Audit.Chain.{hex_digit, hex, is_ascii_hexdigit, is_hex64}

is_ascii_hexdigit-hex_digit : (n : ℕ) → n < 16 → is_ascii_hexdigit (hex_digit n) ≡ true
unfolding is_ascii_hexdigit hex_digit
is_ascii_hexdigit-hex_digit n h = ground arith

len_utf8-hex_digit : (n : ℕ) → n < 16 → len_utf8 (hex_digit n) ≡ 1
unfolding hex_digit len_utf8
len_utf8-hex_digit n h = ground arith

all-hex : (bs : List ℕ) → All (λ b. b < 256) bs → all is_ascii_hexdigit (hex bs) ≡ true
unfolding hex
all-hex [] h = refl
all-hex (b ∷ bs) h = rw (
  is_ascii_hexdigit-hex_digit (b / 16) (omega arith),
  is_ascii_hexdigit-hex_digit (b % 16) (omega arith),
  all-hex bs h.1,
)

byte_len-hex : (bs : List ℕ) → All (λ b. b < 256) bs → byte_len (hex bs) ≡ 2 * length bs
unfolding hex byte_len
byte_len-hex [] h = refl
byte_len-hex (b ∷ bs) h = omega (
  arith,
  len_utf8-hex_digit (b / 16) (omega arith),
  len_utf8-hex_digit (b % 16) (omega arith),
  byte_len-hex bs h.1,
)

-- The hash that is printed of 32 bytes is one that the verification accepts.
pub is_hex64-hex : (bs : List ℕ) → length bs ≡ 32 → All (λ b. b < 256) bs → is_hex64 (hex bs) ≡ true
unfolding is_hex64
is_hex64-hex bs l h = ground (arith, all-hex bs h, byte_len-hex bs h)
