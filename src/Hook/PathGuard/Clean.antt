-- ===== src/Hook/PathGuard/Clean.antt =====
-- The lexical cleaning of a path: what components are left, and that a clean path is left alone.
use apohara_agentguard.Prelude.{
  Text, codes, Bool, true, false, ◌||◌, List, [], ◌∷◌, ◌++◌, reverse, ◌≡◌, ◌⊎◌, inl, inr, refl, sym,
  ap, subst, ◌∙◌, arith, All, eq_text, eq_text_iff, is_empty, split_char, Bool-cases,
}
use mathlib.Core.List.{reverse-reverse, reverse-cons}
use apohara_agentguard.Hook.PathGuard.{
  parent_part, clean_part, clean_parts, is_absolute_path, clean_components,
}

-- A component that stands for a name.
pub record IsName (c : Text) : Type 0 where
  pub not_empty : is_empty c ≡ false
  pub not_dot : eq_text c (codes ".") ≡ false
  pub not_parent : eq_text c (codes "..") ≡ false

-- The components of a clean path, last first: names, under `..` alone, and none of these when the
-- path is absolute.
abbrev pub Resolved : Bool → List Text → Type 0
Resolved is_absolute [] = Unit
Resolved is_absolute (c ∷ cs) =
    (IsName c × Resolved is_absolute cs)
    ⊎ ((is_absolute ≡ false) × (c ≡ codes "..") × All (λ d. d ≡ codes "..") cs)

pub Resolved-parents : (cs : List Text) → All (λ d. d ≡ codes "..") cs → Resolved false cs
Resolved-parents [] h = tt
Resolved-parents (c ∷ cs) h = inr (refl, h.0, h.1)

Resolved-tail : (b : Bool) (c : Text) (cs : List Text) → Resolved b (c ∷ cs) → Resolved b cs
Resolved-tail b c cs (inl h) = h.1
Resolved-tail b c cs (inr h) = subst (λ x. Resolved x cs) (sym h.0) (Resolved-parents cs h.2)

parent_part-Resolved : (b : Bool) (cs : List Text) → Resolved b cs → Resolved b (parent_part b cs)
unfolding parent_part
parent_part-Resolved true [] r = tt
parent_part-Resolved false [] r = inr (refl, refl, tt)
parent_part-Resolved true (c ∷ cs) (inl r) = r.1
parent_part-Resolved true (c ∷ cs) (inr r) = cc
parent_part-Resolved false (c ∷ cs) (inl r) = rw r.0.not_parent r.1
parent_part-Resolved false (c ∷ cs) (inr r) =
    rw ((eq_text_iff c (codes "..")).1 r.1) (inr (refl, refl, (r.1, r.2)))

clean_part-Resolved :
    (b : Bool) (cs : List Text) (part : Text) → Resolved b cs → Resolved b (clean_part b cs part)
unfolding clean_part
clean_part-Resolved b cs part r = elim (Bool-cases (is_empty part || eq_text part (codes "."))) [
  | inl e ↦ rw e r
  | inr e ↦ elim (Bool-cases (eq_text part (codes ".."))) [
    | inl f ↦ rw (e, f) (parent_part-Resolved b cs r)
    | inr f ↦
        rw (e, f)
          (inl (record { not_empty = ground arith; not_dot = ground arith; not_parent = f }, r))
  ]
]

pub clean_parts-Resolved :
    (b : Bool) (cs parts : List Text) → Resolved b cs → Resolved b (clean_parts b cs parts)
unfolding clean_parts
clean_parts-Resolved b cs [] r = r
clean_parts-Resolved b cs (p ∷ parts) r =
    clean_parts-Resolved b (clean_part b cs p) parts (clean_part-Resolved b cs p r)

-- The cleaned path has no empty component and no `.`; it has no `..` when it is absolute, and else
-- only in front of all its names.
pub clean_path-Resolved :
    (path : Text) → Resolved (is_absolute_path path) (reverse (clean_components path))
unfolding clean_components
clean_path-Resolved path =
    subst (Resolved (is_absolute_path path))
      (sym (reverse-reverse (clean_parts (is_absolute_path path) [] (split_char b'/' path))))
      (clean_parts-Resolved (is_absolute_path path) [] (split_char b'/' path) tt)

clean_parts-append :
    (b : Bool) (cs xs ys : List Text)
    → clean_parts b cs (xs ++ ys) ≡ clean_parts b (clean_parts b cs xs) ys
unfolding clean_parts
clean_parts-append b cs [] ys = refl
clean_parts-append b cs (x ∷ xs) ys = clean_parts-append b (clean_part b cs x) xs ys

-- Components that are resolved are read back as they stand.
clean_part_again :
    (b : Bool) (c : Text) (cs : List Text) → Resolved b (c ∷ cs) → clean_part b cs c ≡ c ∷ cs
unfolding clean_part parent_part
clean_part_again b c cs (inl r) = rw (r.0.not_empty, r.0.not_dot, r.0.not_parent)
clean_part_again b c [] (inr r) = rw (r.1, r.0) (unfold eq_text in refl)
clean_part_again b c (d ∷ cs) (inr r) = rw (r.1, r.2.0, r.0) (unfold eq_text in refl)

pub clean_parts_again :
    (b : Bool) (cs : List Text) → Resolved b cs → clean_parts b [] (reverse cs) ≡ cs
unfolding clean_parts
clean_parts_again b [] r = refl
clean_parts_again b (c ∷ cs) r =
    ap (clean_parts b []) (reverse-cons c cs)
    ∙ clean_parts-append b [] (reverse cs) (c ∷ [])
    ∙ ap (λ x. clean_part b x c) (clean_parts_again b cs (Resolved-tail b c cs r))
    ∙ clean_part_again b c cs r
