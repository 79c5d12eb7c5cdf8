-- ===== src/Prelude/Lists.antt =====
-- Lists measured by native numbers and walked by Boolean tests.
use Prim.Native.Nat.{ℕ, suc, ◌+◌}
use mathlib.Core.Path.{◌≡◌, refl, ap}
use mathlib.Core.Logic.{◌⊎◌, inl, inr}
use mathlib.Core.Bool.{Bool, true, false, ◌&&◌, ◌||◌}
use mathlib.Core.List.{List, [], ◌∷◌, ◌++◌, map}
use native.Mathlib.Omega.{arith}
use apohara_agentguard.Prelude.Tests.{if◌then◌else◌, Bool-cases}

module _ {ℓ} {A : Type ℓ} where
  abbrev pub length : List A → ℕ
  length [] = 0
  length (x ∷ xs) = suc (length xs)

  abbrev pub is_nil : List A → Bool
  is_nil [] = true
  is_nil (x ∷ xs) = false

  -- `Iterator::any`
  abbrev pub any : (A → Bool) → List A → Bool
  any p [] = false
  any p (x ∷ xs) = p x || any p xs

  -- `Iterator::all`
  abbrev pub all : (A → Bool) → List A → Bool
  all p [] = true
  all p (x ∷ xs) = p x && all p xs

  -- `Iterator::filter`
  abbrev pub filter : (A → Bool) → List A → List A
  filter p [] = []
  filter p (x ∷ xs) = let rest = filter p xs in if p x then x ∷ rest else rest

  pub length-append : (xs ys : List A) → length (xs ++ ys) ≡ length xs + length ys
  length-append [] ys = omega arith
  length-append (x ∷ xs) ys = omega (arith, length-append xs ys)

module _ {A : Type 0} where
  -- Every item has the property.
  abbrev pub All : (A → Type 0) → List A → Type 0
  All Holds [] = Unit
  All Holds (y ∷ ys) = Holds y × All Holds ys

  -- Some item has the property, and it is kept.
  abbrev pub Any : (A → Type 0) → List A → Type 0
  Any P [] = ⊥
  Any P (x ∷ xs) = P x ⊎ Any P xs

  pub All-append : (Q : A → Type 0) (us vs : List A) → All Q us → All Q vs → All Q (us ++ vs)
  All-append Q [] vs left right = right
  All-append Q (u ∷ us) vs left right = (left.0, All-append Q us vs left.1 right)

  pub All-left : (P : A → Type 0) (xs ys : List A) → All P (xs ++ ys) → All P xs
  All-left P [] ys h = tt
  All-left P (x ∷ xs) ys h = (h.0, All-left P xs ys h.1)

  pub All-right : (P : A → Type 0) (xs ys : List A) → All P (xs ++ ys) → All P ys
  All-right P [] ys h = h
  All-right P (x ∷ xs) ys h = All-right P xs ys h.1

  pub All-map : (P Q : A → Type 0) → ((x : A) → P x → Q x) → (xs : List A) → All P xs → All Q xs
  All-map P Q f [] h = tt
  All-map P Q f (x ∷ xs) h = (f x h.0, All-map P Q f xs h.1)

  pub Any-left : (P : A → Type 0) (xs ys : List A) → Any P xs → Any P (xs ++ ys)
  Any-left P [] ys h = elim h [ ]
  Any-left P (x ∷ xs) ys (inl h) = inl h
  Any-left P (x ∷ xs) ys (inr h) = inr (Any-left P xs ys h)

  pub Any-right : (P : A → Type 0) (xs ys : List A) → Any P ys → Any P (xs ++ ys)
  Any-right P [] ys h = h
  Any-right P (x ∷ xs) ys h = inr (Any-right P xs ys h)

  -- Membership with the position kept.
  abbrev pub In : A → List A → Type 0
  In a = Any (λ x. x ≡ a)

  pub All-In : (P : A → Type 0) {a : A} (xs : List A) → All P xs → In a xs → P a
  All-In P [] h m = elim m [ ]
  All-In P (x ∷ xs) h (inl e) = rw (← e) h.0
  All-In P (x ∷ xs) h (inr m) = All-In P xs h.1 m

  pub any-In : (p : A → Bool) {a : A} (xs : List A) → In a xs → p a ≡ true → any p xs ≡ true
  any-In p [] m h = elim m [ ]
  any-In p (x ∷ xs) (inl e) h = ground (arith, e)
  any-In p (x ∷ xs) (inr m) h = ground (arith, any-In p xs m h)

  pub In-any : (p : A → Bool) (xs : List A) → any p xs ≡ true → (a : A) × In a xs × (p a ≡ true)
  In-any p [] h = cc
  In-any p (x ∷ xs) h = elim (Bool-cases (p x)) [
    | inl e ↦ (x, inl refl, e)
    | inr e ↦ let (a, m, t) = In-any p xs (rw e at h) in (a, inr m, t)
  ]

  pub Any-map : (P Q : A → Type 0) → ((x : A) → P x → Q x) → (xs : List A) → Any P xs → Any Q xs
  Any-map P Q f [] h = elim h [ ]
  Any-map P Q f (x ∷ xs) (inl h) = inl (f x h)
  Any-map P Q f (x ∷ xs) (inr h) = inr (Any-map P Q f xs h)

  pub any-Any :
      (p : A → Bool) (P : A → Type 0)
      → ((x : A) → p x ≡ true → P x)
      → (xs : List A) → any p xs ≡ true
      → Any P xs
  any-Any p P f [] h = cc
  any-Any p P f (x ∷ xs) h = elim (Bool-cases (p x)) [
    | inl e ↦ inl (f x e)
    | inr e ↦ inr (any-Any p P f xs (rw e at h))
  ]

  pub All-In_self : (xs : List A) → All (λ x. In x xs) xs
  All-In_self [] = tt
  All-In_self (x ∷ xs) =
      (inl refl, All-map (λ y. In y xs) (λ y. In y (x ∷ xs)) (λ y m. inr m) xs (All-In_self xs))

module _ {A B : Type 0} where
  pub In-map : (f : A → B) (a : A) (xs : List A) → In a xs → In (f a) (map f xs)
  In-map f a [] m = elim m [ ]
  In-map f a (x ∷ xs) (inl e) = inl (ap f e)
  In-map f a (x ∷ xs) (inr m) = inr (In-map f a xs m)
