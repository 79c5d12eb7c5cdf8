-- ===== src/Hook/PathGuard/Again.antt =====
-- A clean path, split again, gives its components again.
use apohara_agentguard.Prelude.{
  Text, codes, Bool, true, false, ◌||◌, List, [], ◌∷◌, ◌++◌, reverse, ◌≡◌, inl, inr, refl, sym, ap,
  subst, ◌∙◌, arith, ◌==◌, All, All-append, any, eq_text, is_empty, contains_char, split_char,
  starts_with, strip_prefix, Bool-cases,
}
use mathlib.Core.List.{reverse-reverse, reverse-cons}
use apohara_agentguard.Hook.PathGuard.{
  parent_part, clean_part, clean_parts, join, is_absolute_path, clean_components, clean_path,
}
use apohara_agentguard.Hook.PathGuard.Clean.{
  Resolved, Resolved-parents, clean_parts_again, clean_path-Resolved,
}

abbrev NoSlash : Text → Type 0
NoSlash c = contains_char c b'/' ≡ false

split_char-cons :
    (s : Text)
    → (p : Text) × (ps : List Text) × (split_char b'/' s ≡ p ∷ ps) × NoSlash p × All NoSlash ps
unfolding split_char contains_char
split_char-cons [] = ([], [], refl, refl, tt)
split_char-cons (c ∷ s) =
    let (p, ps, e, hp, hps) = split_char-cons s in
    elim (Bool-cases (c == b'/')) [
      | inl q ↦ ([], p ∷ ps, rw (q, e), refl, (hp, hps))
      | inr q ↦ (c ∷ p, ps, rw (q, e), rw q hp, hps)
    ]

split_char-NoSlash : (s : Text) → All NoSlash (split_char b'/' s)
split_char-NoSlash s =
    let (p, ps, e, hp, hps) = split_char-cons s in subst (All NoSlash) (sym e) (hp, hps)

parent_part-NoSlash : (b : Bool) (cs : List Text) → All NoSlash cs → All NoSlash (parent_part b cs)
unfolding parent_part contains_char
parent_part-NoSlash true [] h = tt
parent_part-NoSlash false [] h = (refl, tt)
parent_part-NoSlash true (c ∷ cs) h = h.1
parent_part-NoSlash false (c ∷ cs) h = elim (Bool-cases (eq_text c (codes ".."))) [
  | inl e ↦ rw e (refl, h)
  | inr e ↦ rw e h.1
]

clean_part-NoSlash :
    (b : Bool) (cs : List Text) (part : Text)
    → NoSlash part
    → All NoSlash cs
    → All NoSlash (clean_part b cs part)
unfolding clean_part
clean_part-NoSlash b cs part p h = elim (Bool-cases (is_empty part || eq_text part (codes "."))) [
  | inl e ↦ rw e h
  | inr e ↦ elim (Bool-cases (eq_text part (codes ".."))) [
    | inl f ↦ rw (e, f) (parent_part-NoSlash b cs h)
    | inr f ↦ rw (e, f) (p, h)
  ]
]

clean_parts-NoSlash :
    (b : Bool) (cs parts : List Text)
    → All NoSlash parts
    → All NoSlash cs
    → All NoSlash (clean_parts b cs parts)
unfolding clean_parts
clean_parts-NoSlash b cs [] hp h = h
clean_parts-NoSlash b cs (p ∷ parts) hp h =
    clean_parts-NoSlash b (clean_part b cs p) parts hp.1 (clean_part-NoSlash b cs p hp.0 h)

All-reverse : (P : Text → Type 0) (cs : List Text) → All P cs → All P (reverse cs)
All-reverse P [] h = tt
All-reverse P (c ∷ cs) h =
    subst (All P) (sym (reverse-cons c cs))
      (All-append P (reverse cs) (c ∷ []) (All-reverse P cs h.1) (h.0, tt))

split_char-append :
    (c rest : Text) → NoSlash c → split_char b'/' (c ++ b'/' ∷ rest) ≡ c ∷ split_char b'/' rest
unfolding split_char contains_char
split_char-append [] rest h = refl
split_char-append (x ∷ c) rest h = ground (arith, split_char-append c rest)

split_char_none : (c : Text) → NoSlash c → split_char b'/' c ≡ c ∷ []
unfolding split_char contains_char
split_char_none [] h = refl
split_char_none (x ∷ c) h = ground (arith, split_char_none c)

-- Components are what the join of them is split into.
split_char-join :
    (c : Text) (cs : List Text) → All NoSlash (c ∷ cs) → split_char b'/' (join (c ∷ cs)) ≡ c ∷ cs
unfolding join
split_char-join c [] h = split_char_none c h.0
split_char-join c (d ∷ cs) h =
    split_char-append c (join (d ∷ cs)) h.0 ∙ ap (λ x. c ∷ x) (split_char-join d cs h.1)

clean_parts-join :
    (b : Bool) (cs : List Text)
    → All NoSlash cs
    → clean_parts b [] (split_char b'/' (join cs)) ≡ clean_parts b [] cs
clean_parts-join b [] h = unfold join split_char clean_parts clean_part in refl
clean_parts-join b (c ∷ cs) h = ap (clean_parts b []) (split_char-join c cs h)

pub any-split_char-join :
    (f : Text → Bool) (cs : List Text)
    → f [] ≡ false
    → All NoSlash cs
    → any f (split_char b'/' (join cs)) ≡ any f cs
any-split_char-join f [] e h = unfold join split_char in rw e
any-split_char-join f (c ∷ cs) e h = ap (any f) (split_char-join c cs h)

pub clean_components-NoSlash : (path : Text) → All NoSlash (clean_components path)
unfolding clean_components
clean_components-NoSlash path =
    All-reverse NoSlash (clean_parts (is_absolute_path path) [] (split_char b'/' path)) (
      clean_parts-NoSlash (is_absolute_path path) [] (split_char b'/' path)
        (split_char-NoSlash path) tt)

All-not_empty : (b : Bool) (cs : List Text) → Resolved b cs → All (λ c. is_empty c ≡ false) cs
All-not_empty b [] r = tt
All-not_empty b (c ∷ cs) (inl r) = (r.0.not_empty, All-not_empty b cs r.1)
All-not_empty b (c ∷ cs) (inr r) =
    (ap is_empty r.1, All-not_empty false cs (Resolved-parents cs r.2))

join_relative :
    (cs : List Text)
    → All NoSlash cs
    → All (λ c. is_empty c ≡ false) cs
    → is_absolute_path (join cs) ≡ false
join_relative [] h e = unfold join is_absolute_path starts_with strip_prefix in refl
join_relative ([] ∷ cs) h e = cc
join_relative ((x ∷ c) ∷ []) h e =
    unfold join is_absolute_path starts_with strip_prefix contains_char in ground arith
join_relative ((x ∷ c) ∷ d ∷ cs) h e =
    unfold join is_absolute_path starts_with strip_prefix contains_char in ground arith

pub clean_path-absolute :
    (path : Text)
    → is_absolute_path path ≡ true
    → clean_path path ≡ b'/' ∷ join (clean_components path)
unfolding clean_path
clean_path-absolute path e = rw e

pub clean_path-relative :
    (path : Text) → is_absolute_path path ≡ false → clean_path path ≡ join (clean_components path)
unfolding clean_path
clean_path-relative path e = rw e

clean_components_not_empty : (path : Text) → All (λ c. is_empty c ≡ false) (clean_components path)
clean_components_not_empty path =
    subst (All (λ c. is_empty c ≡ false)) (reverse-reverse (clean_components path)) (
      All-reverse (λ c. is_empty c ≡ false) (reverse (clean_components path))
        (All-not_empty (is_absolute_path path) (reverse (clean_components path))
          (clean_path-Resolved path)))

is_absolute_path-slash : (s : Text) → is_absolute_path (b'/' ∷ s) ≡ true
unfolding is_absolute_path starts_with strip_prefix
is_absolute_path-slash s = refl

is_absolute_path-clean_path :
    (path : Text) → is_absolute_path (clean_path path) ≡ is_absolute_path path
is_absolute_path-clean_path path = elim (Bool-cases (is_absolute_path path)) [
  | inl e ↦
      ap is_absolute_path (clean_path-absolute path e)
      ∙ is_absolute_path-slash (join (clean_components path))
      ∙ sym e
  | inr e ↦
      ap is_absolute_path (clean_path-relative path e)
      ∙ join_relative (clean_components path) (clean_components-NoSlash path)
          (clean_components_not_empty path)
      ∙ sym e
]

clean_parts-components :
    (path : Text)
    → clean_parts (is_absolute_path path) [] (split_char b'/' (join (clean_components path)))
      ≡ reverse (clean_components path)
clean_parts-components path =
    clean_parts-join (is_absolute_path path) (clean_components path) (clean_components-NoSlash path)
    ∙ ap (clean_parts (is_absolute_path path) []) (sym (reverse-reverse (clean_components path)))
    ∙ clean_parts_again (is_absolute_path path) (reverse (clean_components path))
        (clean_path-Resolved path)

-- The leading slash adds an empty part, which is dropped.
clean_parts-slash :
    (b : Bool) (s : Text)
    → clean_parts b [] (split_char b'/' (b'/' ∷ s)) ≡ clean_parts b [] (split_char b'/' s)
unfolding split_char clean_parts clean_part
clean_parts-slash b s = refl

pub clean_components-clean_path :
    (path : Text) → clean_components (clean_path path) ≡ clean_components path
clean_components-clean_path path =
    unfold clean_components in
    ap reverse (split_again (is_absolute_path-clean_path path))
    ∙ reverse-reverse (clean_components path)
  where
    split_again :
        is_absolute_path (clean_path path) ≡ is_absolute_path path
        → clean_parts (is_absolute_path (clean_path path)) [] (split_char b'/' (clean_path path))
          ≡ reverse (clean_components path)
    split_again e = elim (Bool-cases (is_absolute_path path)) [
      | inl t ↦ rw e (
          ap (λ p. clean_parts (is_absolute_path path) [] (split_char b'/' p))
            (clean_path-absolute path t)
          ∙ clean_parts-slash (is_absolute_path path) (join (clean_components path))
          ∙ clean_parts-components path)
      | inr f ↦ rw e (
          ap (λ p. clean_parts (is_absolute_path path) [] (split_char b'/' p))
            (clean_path-relative path f)
          ∙ clean_parts-components path)
    ]

-- Cleaning a clean path changes nothing.
pub clean_path-clean_path : (path : Text) → clean_path (clean_path path) ≡ clean_path path
clean_path-clean_path path =
    let parts = ap join (clean_components-clean_path path) in
    let kind = is_absolute_path-clean_path path in
    elim (Bool-cases (is_absolute_path path)) [
      | inl e ↦
          clean_path-absolute (clean_path path) (kind ∙ e)
          ∙ ap (λ j. b'/' ∷ j) parts
          ∙ sym (clean_path-absolute path e)
      | inr e ↦
          clean_path-relative (clean_path path) (kind ∙ e)
          ∙ parts
          ∙ sym (clean_path-relative path e)
    ]
