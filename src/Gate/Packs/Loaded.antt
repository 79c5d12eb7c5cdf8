-- ===== src/Gate/Packs/Loaded.antt =====
-- src/gate/packs/community.rs: what the loader lets in.
use apohara_agentguard.Prelude.{
  ◌≤◌, ◌≡◌, refl, sym, ◌∙◌, subst, ap, arith, Text, Bool, true, false, not, ◌&&◌, ◌||◌, List, [],
  ◌∷◌, ◌++◌, map, inl, inr, All, All-append, Bool-cases, Result, Result-cases, ok, err, ◌>>◌,
  refuse_if, bind-eq-ok, is_empty, is_nil, contains_text, eq_text, eq_text_iff, ltb, ok-injective,
  ◌==◌,
}
use apohara_agentguard.Gate.Packs.{
  CommunityRule, CommunityPack, PackFile, PackError, Entry, Listing, missing, unreadable, entries,
  Loading, max_severity, is_kebab_case, check_rule, load_rules, check_pack, parse_pack, add_pack,
  add_file, load_entries, load_dir, has_id, has_name, empty_id, empty_pattern, bad_severity,
  duplicate_id, bad_version, bad_name, no_rules,
}

refuse_if-eq-ok : {E : Type 0} (b : Bool) (e : E) → refuse_if b e ≡ ok tt → b ≡ false
refuse_if-eq-ok true e h = cc
refuse_if-eq-ok false e h = refl

eq_text_sym : (a b : Text) → eq_text a b ≡ eq_text b a
eq_text_sym a b = ground (arith, eq_text_iff a b, eq_text_iff b a)

-- No text stands twice.
abbrev pub all_apart : List Text → Bool
all_apart [] = true
all_apart (t ∷ ts) = not (contains_text ts t) && all_apart ts

contains_text-snoc :
    (ts : List Text) (d t : Text)
    → contains_text (ts ++ d ∷ []) t ≡ (contains_text ts t || eq_text d t)
contains_text-snoc [] d t = ground arith
contains_text-snoc (u ∷ ts) d t = ground (arith, contains_text-snoc ts d t)

all_apart-snoc :
    (ts : List Text) (d : Text)
    → all_apart ts ≡ true
    → contains_text ts d ≡ false
    → all_apart (ts ++ d ∷ []) ≡ true
all_apart-snoc [] d h n = refl
all_apart-snoc (t ∷ ts) d h n =
    ground (arith, h, n, all_apart-snoc ts d, contains_text-snoc ts d t, eq_text_sym t d)

abbrev rule_ids : List CommunityRule → List Text
rule_ids = map (λ r. r.id)

abbrev pack_names : List CommunityPack → List Text
pack_names = map (λ p. p.name)

map-snoc :
    {A : Type 0} (f : A → Text) (xs : List A) (x : A) → map f (xs ++ x ∷ []) ≡ map f xs ++ f x ∷ []
map-snoc f [] x = refl
map-snoc f (y ∷ xs) x = ap (◌∷◌ (f y)) (map-snoc f xs x)

has_id-rule_ids :
    (rs : List CommunityRule) (id : Text) → has_id id rs ≡ contains_text (rule_ids rs) id
has_id-rule_ids [] id = refl
has_id-rule_ids (r ∷ rs) id = ap (λ b. eq_text r.id id || b) (has_id-rule_ids rs id)

has_name-pack_names :
    (ps : List CommunityPack) (name : Text) → has_name name ps ≡ contains_text (pack_names ps) name
has_name-pack_names [] name = refl
has_name-pack_names (p ∷ ps) name = ap (λ b. eq_text p.name name || b) (has_name-pack_names ps name)

-- A rule that can be reported and does not match every command by an empty pattern.
pub record IsSound (r : CommunityRule) : Type 0 where
  pub id_given : is_empty r.id ≡ false
  pub pattern_given : is_empty r.pattern ≡ false
  pub severity_le : r.severity ≤ max_severity

abbrev RulesAreSound : List CommunityRule → Type 0
RulesAreSound rs = All IsSound rs × (all_apart (rule_ids rs) ≡ true)

pub record IsLoaded (p : CommunityPack) : Type 0 where
  pub name_kebab : is_kebab_case p.name ≡ true
  pub rules_sound : All IsSound p.rules
  pub ids_apart : all_apart (rule_ids p.rules) ≡ true

-- A chain of four refusals that lets pass.
four_passed :
    (a b c d : Bool) (e f g h : PackError)
    → (refuse_if a e >> refuse_if b f >> refuse_if c g >> refuse_if d h) ≡ ok tt
    → (a ≡ false) × (b ≡ false) × (c ≡ false) × (d ≡ false)
four_passed true b c d e f g h k = cc
four_passed false true c d e f g h k = cc
four_passed false false true d e f g h k = cc
four_passed false false false true e f g h k = cc
four_passed false false false false e f g h k = (refl, refl, refl, refl)

check_rule-IsSound :
    (rs : List CommunityRule) (d : CommunityRule)
    → check_rule rs d ≡ ok tt
    → IsSound d × (has_id d.id rs ≡ false)
unfolding check_rule
check_rule-IsSound rs d h =
    let (a, b, c, n) =
      four_passed (is_empty d.id) (is_empty d.pattern) (ltb max_severity d.severity)
        (has_id d.id rs) empty_id (empty_pattern d) (bad_severity d) (duplicate_id d) h in
    (record { id_given = a; pattern_given = b; severity_le = ground (arith, c) }, n)

load_rules-RulesAreSound :
    (rs ds : List CommunityRule) {out : List CommunityRule}
    → RulesAreSound rs
    → load_rules rs ds ≡ ok out
    → RulesAreSound out
unfolding load_rules
load_rules-RulesAreSound rs [] s h = subst RulesAreSound (ok-injective h) s
load_rules-RulesAreSound rs (d ∷ ds) s h =
    let (u, passed, later) = bind-eq-ok (check_rule rs d) (λ _. load_rules (rs ++ d ∷ []) ds) h in
    let (sound, fresh) = check_rule-IsSound rs d passed in
    load_rules-RulesAreSound (rs ++ d ∷ []) ds
      (
        All-append IsSound rs (d ∷ []) s.0 (sound, tt),
        ap all_apart (map-snoc (λ r. r.id) rs d)
            ∙ all_apart-snoc (rule_ids rs) d.id s.1 (sym (has_id-rule_ids rs d.id) ∙ fresh),
      )
      later

kebab_passed :
    (a b c : Bool) (e f g : PackError)
    → (refuse_if a e >> refuse_if (not b) f >> refuse_if c g) ≡ ok tt
    → b ≡ true
kebab_passed true b c e f g k = cc
kebab_passed false true c e f g k = refl
kebab_passed false false c e f g k = cc

check_pack-IsLoaded : (file : PackFile) {p : CommunityPack} → check_pack file ≡ ok p → IsLoaded p
unfolding check_pack
check_pack-IsLoaded file {p} h =
    let guards =
      refuse_if (not (file.schema_version == 1)) (bad_version file.schema_version)
      >> refuse_if (not (is_kebab_case file.name)) (bad_name file.name)
      >> refuse_if (is_nil file.rules) no_rules in
    let (rules, loaded, e) =
      bind-eq-ok (guards >> load_rules [] file.rules)
        (λ rules. ok (record { name = file.name; rules = rules })) h in
    let (u, passed, read) = bind-eq-ok guards (λ _. load_rules [] file.rules) loaded in
    let sound = load_rules-RulesAreSound [] file.rules (tt, refl) read in
    subst IsLoaded (ok-injective e) (record {
      name_kebab =
          kebab_passed (not (file.schema_version == 1)) (is_kebab_case file.name)
            (is_nil file.rules) _ _ _ passed;
      rules_sound = sound.0;
      ids_apart = sound.1;
    })

-- The packs are sound, and no two have one name.
abbrev pub PacksAreLoaded : List CommunityPack → Type 0
PacksAreLoaded packs = All IsLoaded packs × (all_apart (pack_names packs) ≡ true)

module _ (from_toml : Text → Result Text PackFile) where
  parse_pack-IsLoaded :
      (text : Text) {p : CommunityPack} → parse_pack from_toml text ≡ ok p → IsLoaded p
  unfolding parse_pack
  parse_pack-IsLoaded text h = elim (Result-cases (from_toml text)) [
    | inl (file, e) ↦ check_pack-IsLoaded file (rw (e, parse_pack) at h)
    | inr (w, e) ↦ let k = rw (e, parse_pack) at h in cc
  ]

  add_pack-PacksAreLoaded :
      (path : Text) (read : Result PackError CommunityPack) (loaded : Loading)
      → ((p : CommunityPack) → read ≡ ok p → IsLoaded p)
      → PacksAreLoaded loaded.0
      → PacksAreLoaded (add_pack from_toml path read loaded).0
  unfolding add_pack
  add_pack-PacksAreLoaded path (err w) loaded f s = s
  add_pack-PacksAreLoaded path (ok p) (packs, diags) f s =
      elim (Bool-cases (has_name p.name packs)) [
        | inl e ↦ rw e s
        | inr e ↦ rw e (
          All-append IsLoaded packs (p ∷ []) s.0 (f p refl, tt),
          ap all_apart (map-snoc (λ q. q.name) packs p)
              ∙ all_apart-snoc (pack_names packs) p.name s.1
                  (sym (has_name-pack_names packs p.name) ∙ e),
        )
      ]

  add_file-PacksAreLoaded :
      (path : Text) (content : Result Text Text) (loaded : Loading)
      → PacksAreLoaded loaded.0
      → PacksAreLoaded (add_file from_toml path content loaded).0
  unfolding add_file
  add_file-PacksAreLoaded path (err w) loaded s = s
  add_file-PacksAreLoaded path (ok text) loaded s =
      add_pack-PacksAreLoaded path (parse_pack from_toml text) loaded
        (λ p. parse_pack-IsLoaded text {p = p}) s

  load_entries-PacksAreLoaded :
      (loaded : Loading) (es : List Entry)
      → PacksAreLoaded loaded.0
      → PacksAreLoaded (load_entries from_toml loaded es).0
  unfolding load_entries
  load_entries-PacksAreLoaded loaded [] s = s
  load_entries-PacksAreLoaded loaded (e ∷ es) s = elim (Bool-cases e.is_candidate) [
    | inl c ↦ rw c (
        load_entries-PacksAreLoaded (add_file from_toml e.path e.content loaded) es
          (add_file-PacksAreLoaded e.path e.content loaded s))
    | inr c ↦ rw c (load_entries-PacksAreLoaded loaded es s)
  ]

  -- Whatever a directory holds, each pack that is loaded from it has a kebab-case name of its own
  -- and rules with an id of their own, a pattern that is not empty and a severity in range.
  pub load_dir-PacksAreLoaded : (listing : Listing) → PacksAreLoaded (load_dir from_toml listing).0
  unfolding load_dir
  load_dir-PacksAreLoaded missing = (tt, refl)
  load_dir-PacksAreLoaded (unreadable e) = (tt, refl)
  load_dir-PacksAreLoaded (entries es) = load_entries-PacksAreLoaded ([], []) es (tt, refl)
