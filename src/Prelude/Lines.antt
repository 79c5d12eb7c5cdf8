-- ===== src/Prelude/Lines.antt =====
-- `str::lines`: the lines of a text, each without its line feed and a carriage return before it.
use apohara_agentguard.Prelude.{
  ℕ, Text, Bool, true, false, ◌&&◌, List, [], ◌∷◌, ◌++◌, ◌≡◌, ◌≢◌, refl, arith, All, ◌==◌,
  if◌then◌else◌,
}

starts_line_feed : Text → Bool
starts_line_feed [] = false
starts_line_feed (c ∷ s) = c == b'\n'

-- A character in front of the first line
cons_first : ℕ → List Text → List Text
cons_first c [] = (c ∷ []) ∷ []
cons_first c (l ∷ ls) = (c ∷ l) ∷ ls

unfoldable pub lines : Text → List Text
unfolding starts_line_feed cons_first
lines [] = []
lines (c ∷ s) =
    let rest = lines s in
    if c == b'\n'
    then [] ∷ rest
    else if c == b'\r' && starts_line_feed s
    then rest
    else cons_first c rest

-- Whether a text is empty or its last line is ended.
unfoldable pub ends_line : Text → Bool
ends_line [] = true
ends_line (c ∷ []) = c == b'\n'
ends_line (c ∷ d ∷ s) = ends_line (d ∷ s)

cons_first-append :
    (c : ℕ) (xs ys : List Text) → xs ≢ [] → cons_first c (xs ++ ys) ≡ cons_first c xs ++ ys
unfolding cons_first
cons_first-append c [] ys h = elim (h refl) [ ]
cons_first-append c (x ∷ xs) ys h = refl

cons_first-ne-nil : (c : ℕ) (xs : List Text) → cons_first c xs ≢ []
unfolding cons_first
cons_first-ne-nil c [] h = cc
cons_first-ne-nil c (x ∷ xs) h = cc

lines-ne-nil : (c : ℕ) (s : Text) → lines (c ∷ s) ≢ []
unfolding lines starts_line_feed
lines-ne-nil c [] = ground (arith, cons_first-ne-nil c [])
lines-ne-nil c (d ∷ s) = ground (arith, cons_first-ne-nil c (lines (d ∷ s)), lines-ne-nil d s)

-- Behind an ended line, the lines of what follows are lines of their own.
pub lines-append : (a b : Text) → ends_line a ≡ true → lines (a ++ b) ≡ lines a ++ lines b
unfolding lines ends_line starts_line_feed
lines-append [] b h = refl
lines-append (c ∷ []) b h = rw h
lines-append (c ∷ d ∷ s) b h =
    rw (lines-append (d ∷ s) b h) (split (c == b'\n') (c == b'\r' && d == b'\n'))
  where
    split :
        (x y : Bool)
        → (if x
            then [] ∷ (lines (d ∷ s) ++ lines b)
            else if y
            then lines (d ∷ s) ++ lines b
            else cons_first c (lines (d ∷ s) ++ lines b))
          ≡ (if x
              then [] ∷ lines (d ∷ s)
              else if y
              then lines (d ∷ s)
              else cons_first c (lines (d ∷ s)))
            ++ lines b
    split true y = refl
    split false true = refl
    split false false = cons_first-append c (lines (d ∷ s)) (lines b) (lines-ne-nil d s)

abbrev pub NoBreak : Text → Type 0
NoBreak t = All (λ c. (c ≢ b'\n') × (c ≢ b'\r')) t

-- A text without line breaks, with a line feed behind it, is one line.
pub lines-line_feed : (t : Text) → NoBreak t → lines (t ++ b'\n' ∷ []) ≡ t ∷ []
unfolding lines cons_first
lines-line_feed [] h = refl
lines-line_feed (c ∷ t) (h, hs) = rw (lines-line_feed t hs) (ground (arith, h.0, h.1))

pub ends_line-line_feed : (a : Text) → ends_line (a ++ b'\n' ∷ []) ≡ true
unfolding ends_line
ends_line-line_feed [] = refl
ends_line-line_feed (c ∷ []) = refl
ends_line-line_feed (c ∷ d ∷ s) = ends_line-line_feed (d ∷ s)
