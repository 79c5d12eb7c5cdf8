-- ===== src/Prelude/Fallible.antt =====
-- `Result<A, E>` and the chains that `?` makes of it.
use mathlib.Core.Path.{◌≡◌, refl}
use mathlib.Core.Bool.{Bool, true, false}
use mathlib.Core.Logic.{◌≢◌, ◌⊎◌, inl, inr}
use apohara_agentguard.Prelude.Tests.{if◌then◌else◌}

pub data Result (E A : Type 0) : Type 0 where
  ok : A → Result E A
  err : E → Result E A

module _ {E A B : Type 0} where
  infixl 5 ◌>>=◌ ◌>>◌
  -- `?`
  abbrev pub ◌>>=◌ : Result E A → (A → Result E B) → Result E B
  first >>= next = elim first [ err why ↦ err why | ok x ↦ next x ]

  abbrev pub ◌>>◌ : Result E A → Result E B → Result E B
  first >> second = first >>= λ _. second

  -- A chain that ends well has passed its first link.
  pub bind-eq-ok :
      (first : Result E A) (next : A → Result E B) {out : B}
      → first >>= next ≡ ok out
      → (x : A) × (first ≡ ok x) × (next x ≡ ok out)
  bind-eq-ok (err why) next ended = cc
  bind-eq-ok (ok x) next ended = (x, refl, ended)

-- `if bad { bail!(…) }`
abbrev pub refuse_if : {E : Type 0} → Bool → E → Result E (Unit {0})
refuse_if true e = err e
refuse_if false e = ok tt

module _ {E A : Type 0} where
  pub Result-cases : (m : Result E A) → ((a : A) × (m ≡ ok a)) ⊎ ((e : E) × (m ≡ err e))
  Result-cases (ok a) = inl (a, refl)
  Result-cases (err e) = inr (e, refl)

  -- A checked assignment, `if b { check()?; v } else { w }`, that came to `l`.
  pub checked-eq-ok :
      (b : Bool) (m : Result E (Unit {0})) (v w : A) {l : A}
      → (if b then (m >> ok v) else ok w) ≡ ok l
      → ((m ≡ ok tt) × (v ≡ l)) ⊎ (w ≡ l)
  checked-eq-ok true (ok a) v w h = inl (refl, cc)
  checked-eq-ok true (err e) v w h = cc
  checked-eq-ok false m v w h = inr cc

  pub ok-injective : {a b : A} → ◌≡◌ {A = Result E A} (ok a) (ok b) → a ≡ b
  ok-injective h = cc

module _ {E A B : Type 0} where
  pub bind-ne-err :
      (w : E) (m : Result E A) (f : A → Result E B)
      → m ≢ err w
      → ((a : A) → f a ≢ err w)
      → m >>= f ≢ err w
  bind-ne-err w (ok a) f hm hf h = hf a h
  bind-ne-err w (err e) f hm hf h = hm cc
