-- ===== src/Config/Tightening/Lists.antt =====
-- The list fields of a merge: what each loop over a list has checked when it ends.
use apohara_agentguard.Prelude.{
  Text, true, Option, none, some, List, [], ◌∷◌, ◌++◌, inl, inr, ◌≡◌, ◌≢◌, refl, ap, arith, any,
  All, Any, In, any-Any, Any-map, Any-left, All-In_self, All-map, eq_text, eq_text_iff,
  contains_text, Bool-cases, ok, err, ◌>>=◌, bind-eq-ok, checked-eq-ok, Result-cases,
}
use apohara_agentguard.Config.{Config, CustomBlock, same_component}
use apohara_agentguard.Config.Tightening.{
  TighteningPresence, Violation, unreachable_expect, added_allowance, dropped_pack,
  dropped_community_pack, check_subset, merge_allow_list, check_blocks_kept, merge_custom_blocks,
  add_missing, merge_packs, merge_community_enabled, check_components, find_component, expect,
  canonical_components, merge_disabled,
}

contains_text-In : (known : List Text) (x : Text) → contains_text known x ≡ true → In x known
contains_text-In known x =
    any-Any (λ k. eq_text k x) (λ k. k ≡ x) (λ k e. (eq_text_iff k x).0 e) known

check_subset-In :
    (why : Text → Violation) (xs known : List Text)
    → check_subset why xs known ≡ ok tt
    → All (λ x. In x known) xs
unfolding check_subset
check_subset-In why [] known h = tt
check_subset-In why (x ∷ xs) known h = elim (Bool-cases (contains_text known x)) [
  | inl e ↦ (contains_text-In known x e, check_subset-In why xs known (rw e at h))
  | inr e ↦ cc (rw e at h)
]

pub merge_allow_list-In :
    (base overlay : Config) (p : TighteningPresence) (l : List Text)
    → merge_allow_list base overlay p ≡ ok l
    → All (λ x. In x base.allow_list) l
unfolding merge_allow_list
merge_allow_list-In base overlay p l h =
    elim (checked-eq-ok p.allow_list
      (check_subset added_allowance overlay.allow_list base.allow_list) overlay.allow_list
      base.allow_list h) [
        | inl (c, e) ↦
            rw (← e) (check_subset-In added_allowance overlay.allow_list base.allow_list c)
        | inr e ↦ rw (← e) (All-In_self base.allow_list)
      ]

abbrev pub KeepsPatterns : List CustomBlock → List CustomBlock → Type 0
KeepsPatterns user merged = All (λ ub. Any (λ pb. pb.pattern ≡ ub.pattern) merged) user

KeepsPatterns-refl : (user : List CustomBlock) → KeepsPatterns user user
KeepsPatterns-refl user =
    All-map (λ ub. In ub user) (λ ub. Any (λ pb. pb.pattern ≡ ub.pattern) user)
      (λ ub m.
        Any-map (λ pb. pb ≡ ub) (λ pb. pb.pattern ≡ ub.pattern) (λ pb e. ap (λ b. b.pattern) e) user
          m)
      user (All-In_self user)

check_blocks_kept-KeepsPatterns :
    (user project : List CustomBlock)
    → check_blocks_kept user project ≡ ok tt
    → KeepsPatterns user project
unfolding check_blocks_kept
check_blocks_kept-KeepsPatterns [] project h = tt
check_blocks_kept-KeepsPatterns (ub ∷ ubs) project h =
    elim (Bool-cases (any (λ pb. eq_text pb.pattern ub.pattern) project)) [
      | inl e ↦ (
        any-Any (λ pb. eq_text pb.pattern ub.pattern) (λ pb. pb.pattern ≡ ub.pattern)
            (λ pb t. (eq_text_iff pb.pattern ub.pattern).0 t) project e,
        check_blocks_kept-KeepsPatterns ubs project (rw e at h),
      )
      | inr e ↦ cc (rw e at h)
    ]

add_missing-In :
    (enabled names : List Text) (x : Text) → In x enabled → In x (add_missing enabled names)
unfolding add_missing
add_missing-In enabled [] x m = m
add_missing-In enabled (name ∷ names) x m = elim (Bool-cases (contains_text enabled name)) [
  | inl e ↦ rw e (add_missing-In enabled names x m)
  | inr e ↦
      rw e (
        add_missing-In (enabled ++ name ∷ []) names x (Any-left (λ y. y ≡ x) enabled (name ∷ []) m))
]

find_component-In : (us : List Text) (c : Text) {u : Text} → find_component us c ≡ some u → In u us
unfolding find_component
find_component-In [] c h = cc
find_component-In (u ∷ us) c h = elim (Bool-cases (same_component u c)) [
  | inl e ↦ inl (ground (arith, e))
  | inr e ↦ inr (find_component-In us c (rw e at h))
]

find_component-IsSome :
    (us : List Text) (c : Text)
    → any (λ u. same_component u c) us ≡ true
    → (u : Text) × (find_component us c ≡ some u)
unfolding find_component
find_component-IsSome [] c h = cc
find_component-IsSome (u ∷ us) c h = elim (Bool-cases (same_component u c)) [
  | inl e ↦ (u, rw e)
  | inr e ↦ rw e (find_component-IsSome us c (rw e at h))
]

expect-eq-ok : (o : Option Text) {u : Text} → expect o ≡ ok u → o ≡ some u
unfolding expect
expect-eq-ok none h = cc
expect-eq-ok (some v) h = cc

canonical_components-In :
    (cs base : List Text) (l : List Text)
    → canonical_components cs base ≡ ok l
    → All (λ u. In u base) l
unfolding canonical_components
canonical_components-In [] base [] h = tt
canonical_components-In [] base (u ∷ us) h = cc
canonical_components-In (c ∷ cs) base l h =
    let (u, f, later) =
      bind-eq-ok (expect (find_component base c))
        (λ u. canonical_components cs base >>= λ us. ok (u ∷ us)) h in
    let (us, g, e) = bind-eq-ok (canonical_components cs base) (λ us. ok (u ∷ us)) later in
    let same : u ∷ us ≡ l = cc e in
    rw (← same) (
      find_component-In base c (expect-eq-ok (find_component base c) f),
      canonical_components-In cs base us g,
    )

check_components-ne-panic :
    (cs base : List Text) → check_components cs base ≢ err unreachable_expect
unfolding check_components
check_components-ne-panic [] base h = cc
check_components-ne-panic (c ∷ cs) base h = ground (arith, check_components-ne-panic cs base)

-- The panic of `expect` is never reached behind the check.
canonical_components_total :
    (cs base : List Text)
    → check_components cs base ≡ ok tt
    → (l : List Text) × (canonical_components cs base ≡ ok l)
unfolding check_components canonical_components
canonical_components_total [] base h = ([], refl)
canonical_components_total (c ∷ cs) base h =
    elim (Bool-cases (any (λ u. same_component u c) base)) [
      | inl e ↦
          let (u, f) = find_component-IsSome base c e in
          let (us, g) = canonical_components_total cs base (rw e at h) in (u ∷ us, rw (f, g))
      | inr e ↦ cc (rw e at h)
    ]

pub merge_custom_blocks-KeepsPatterns :
    (base overlay : Config) (p : TighteningPresence) (l : List CustomBlock)
    → merge_custom_blocks base overlay p ≡ ok l
    → KeepsPatterns base.custom_blocks l
unfolding merge_custom_blocks
merge_custom_blocks-KeepsPatterns base overlay p l h =
    elim (checked-eq-ok p.custom_blocks (check_blocks_kept base.custom_blocks overlay.custom_blocks)
      overlay.custom_blocks base.custom_blocks h) [
        | inl (c, e) ↦
            rw (← e) (check_blocks_kept-KeepsPatterns base.custom_blocks overlay.custom_blocks c)
        | inr e ↦ rw (← e) (KeepsPatterns-refl base.custom_blocks)
      ]

pub merge_packs-In :
    (base overlay : Config) (p : TighteningPresence) (l : List Text)
    → merge_packs base overlay p ≡ ok l
    → All (λ x. In x l) base.packs
unfolding merge_packs
merge_packs-In base overlay p l h =
    elim (checked-eq-ok p.packs (check_subset dropped_pack base.packs overlay.packs) overlay.packs
      base.packs h) [
        | inl (c, e) ↦ rw (← e) (check_subset-In dropped_pack base.packs overlay.packs c)
        | inr e ↦ rw (← e) (All-In_self base.packs)
      ]

pub merge_community_enabled-In :
    (base overlay : Config) (p : TighteningPresence) (l : List Text)
    → merge_community_enabled base overlay p ≡ ok l
    → All (λ x. In x l) base.community_packs.enabled
unfolding merge_community_enabled
merge_community_enabled-In base overlay p l h =
    let user = base.community_packs.enabled in
    let project = overlay.community_packs.enabled in
    elim (checked-eq-ok p.community_packs_enabled (check_subset dropped_community_pack user project)
      (add_missing user project) user h) [
        | inl (c, e) ↦ rw (← e) (
            All-map (λ x. In x user) (λ x. In x (add_missing user project))
              (add_missing-In user project) user (All-In_self user))
        | inr e ↦ rw (← e) (All-In_self user)
      ]

pub merge_disabled-In :
    (base overlay : Config) (p : TighteningPresence) (l : List Text)
    → merge_disabled base overlay p ≡ ok l
    → All (λ x. In x base.disabled) l
unfolding merge_disabled
merge_disabled-In base overlay p l h = elim (Bool-cases p.disabled) [
  | inl e ↦
      let (u, c, f) =
        bind-eq-ok (check_components overlay.disabled base.disabled)
          (λ _. canonical_components overlay.disabled base.disabled >>= λ names. ok names)
          (rw e at h) in
      let (names, g, k) =
        bind-eq-ok (canonical_components overlay.disabled base.disabled) (λ names. ok names) f in
      let same : names ≡ l = cc k in
      rw (← same) (canonical_components-In overlay.disabled base.disabled names g)
  | inr e ↦ let same : base.disabled ≡ l = cc (rw e at h) in rw (← same) (All-In_self base.disabled)
]

-- The merge of the disabled components does not panic.
pub merge_disabled-ne-panic :
    (base overlay : Config) (p : TighteningPresence)
    → merge_disabled base overlay p ≢ err unreachable_expect
unfolding merge_disabled
merge_disabled-ne-panic base overlay p h =
    elim (Result-cases (check_components overlay.disabled base.disabled)) [
      | inl (u, e) ↦
          let (names, g) = canonical_components_total overlay.disabled base.disabled e in
          ground (arith, e, g)
      | inr (w, e) ↦ ground (arith, e, check_components-ne-panic overlay.disabled base.disabled)
    ]
