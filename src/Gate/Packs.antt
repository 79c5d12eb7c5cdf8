-- ===== src/Gate/Packs.antt =====
-- src/gate/packs: the opt-in rules of the domain packs and of the community packs.
--
-- `is_match` stands for the regex library, and `from_toml` for the TOML reader. A directory is what
-- its listing returns, with the files in the order that `paths.sort()` leaves them in. The
-- diagnostics and the warnings are returned where the code prints them.
pub mod Loaded
mod Tests
use apohara_agentguard.Prelude.{
  ℕ, String, Text, codes, Bool, true, false, not, ◌&&◌, ◌||◌, Option, none, some, List, [], ◌∷◌,
  ◌++◌, any, is_nil, is_empty, eq_text, contains_text, ltb, leb, ◌==◌, Result, ok, err, ◌>>=◌, ◌>>◌,
  refuse_if, if◌then◌else◌,
}
use apohara_agentguard.Config.{CommunityPacksConfig}
use apohara_agentguard.Policy.Matcher.{community_pattern_matches}
use apohara_agentguard.Gate.Taxonomy.{DestructiveRule, rule}

module _ (is_match : Text → Text → Bool) where
  abbrev re : Text → String → Bool
  re s pattern = is_match (codes pattern) s

  abbrev cloud_rules : List DestructiveRule
  cloud_rules =
      rule is_match "aws-s3-rb-force" 9 "cloud"
        (λ s. re s "(?i)\\baws\\b\\s+s3\\b\\s+rb\\b[^|;&\\n]*\\s--force\\b")
      ∷ rule is_match "aws-delete" 8 "cloud" (λ s.
        re s "(?i)\\baws\\b[^|;&\\n]*\\s(delete-\\w+|terminate-instances)\\b"
        || re s "(?i)\\baws\\b\\s+s3\\s+rm\\b[^|;&\\n]*\\s--recursive\\b")
      ∷ rule is_match "gcloud-delete" 8 "cloud" (λ s. re s "(?i)\\bgcloud\\b[^|;&\\n]*\\sdelete\\b")
      ∷ rule is_match "az-delete" 8 "cloud" (λ s. re s "(?i)\\baz\\b[^|;&\\n]*\\sdelete\\b")
      ∷ []

  abbrev container_rules : List DestructiveRule
  container_rules =
      rule is_match "docker-system-prune" 8 "container" (λ s.
        re s
          "(?i)\\bdocker\\b\\s+(system|image|volume|network|container)\\s+prune\\b[^|;&\\n]*\\s-[a-z]*[af]")
      ∷ rule is_match "docker-rm-force" 8 "container" (λ s.
        re s "(?i)\\bdocker\\b\\s+(container\\s+)?(rm|rmi)\\b[^|;&\\n]*\\s(--force\\b|-[a-z]*f)")
      ∷ rule is_match "kubectl-delete-all" 9 "container"
          (λ s. re s "(?i)\\bkubectl\\b\\s+delete\\b[^|;&\\n]*\\s--all\\b")
      ∷ []

  abbrev db_rules : List DestructiveRule
  db_rules =
      rule is_match "drop-table" 8 "db" (λ s. re s "(?i)\\bdrop\\s+table\\b")
      ∷ rule is_match "drop-database" 9 "db" (λ s.
        re s "(?i)\\bdrop\\s+(database|schema)\\b"
        || re s "(?i)\\bdropdb\\b"
        || re s "(?i)\\bmysqladmin\\b[^|;&\\n]*\\sdrop\\s+\\w")
      ∷ rule is_match "truncate" 8 "db" (λ s. re s "(?i)\\btruncate\\s+(table\\b|\\w)")
      ∷ []

  rules_for : Text → List DestructiveRule
  rules_for name =
      if eq_text name (codes "cloud")
      then cloud_rules
      else if eq_text name (codes "db")
      then db_rules
      else if eq_text name (codes "container")
      then container_rules
      else []

  unfoldable pub enabled_rules : List Text → List DestructiveRule
  unfolding rules_for
  enabled_rules [] = []
  enabled_rules (name ∷ names) = rules_for name ++ enabled_rules names

-- `CommunityRule`, and `RuleDef` with the same fields
pub record CommunityRule : Type 0 where
  pub id : Text
  pub pattern : Text
  pub severity : ℕ
  pub category : Text

pub record CommunityPack : Type 0 where
  pub name : Text
  pub rules : List CommunityRule

-- `PackFile` and its `PackMeta`, less the two fields that nothing reads
pub record PackFile : Type 0 where
  pub schema_version : ℕ
  pub name : Text
  pub rules : List CommunityRule

abbrev pub community_matches : CommunityRule → Text → Bool
community_matches r text = community_pattern_matches r.pattern text

-- Why a pack is refused.
pub data PackError : Type 0 where
  not_toml : Text → PackError
  bad_version : ℕ → PackError
  bad_name : Text → PackError
  no_rules empty_id : PackError
  empty_pattern bad_severity duplicate_id : CommunityRule → PackError

abbrev is_group_char : ℕ → Bool
is_group_char c = (leb b'a' c && leb c b'z') || (leb b'0' c && leb c b'9')

-- The loop of `is_kebab_case`.
unfoldable kebab_from : Bool → Text → Bool
kebab_from after_hyphen [] = not after_hyphen
kebab_from after_hyphen (c ∷ s) =
    let rest = kebab_from (not (is_group_char c)) s in
    if is_group_char c then rest else c == b'-' && not after_hyphen && rest

unfoldable pub is_kebab_case : Text → Bool
unfolding kebab_from
is_kebab_case name = not (is_empty name) && kebab_from true name

abbrev pub max_severity : ℕ
max_severity = 9

abbrev has_id : Text → List CommunityRule → Bool
has_id id rules = any (λ r. eq_text r.id id) rules

unfoldable check_rule : List CommunityRule → CommunityRule → Result PackError (Unit {0})
check_rule rules def =
    refuse_if (is_empty def.id) empty_id
    >> refuse_if (is_empty def.pattern) (empty_pattern def)
    >> refuse_if (ltb max_severity def.severity) (bad_severity def)
    >> refuse_if (has_id def.id rules) (duplicate_id def)

-- The loop over the rules, with those that are loaded.
unfoldable load_rules :
    List CommunityRule → List CommunityRule → Result PackError (List CommunityRule)
unfolding check_rule
load_rules rules [] = ok rules
load_rules rules (def ∷ defs) = check_rule rules def >>= λ _. load_rules (rules ++ def ∷ []) defs

unfoldable check_pack : PackFile → Result PackError CommunityPack
unfolding is_kebab_case load_rules
check_pack file =
    refuse_if (not (file.schema_version == 1)) (bad_version file.schema_version)
    >> refuse_if (not (is_kebab_case file.name)) (bad_name file.name)
    >> refuse_if (is_nil file.rules) no_rules
    >> load_rules [] file.rules
    >>= λ rules. ok (record { name = file.name; rules = rules })

-- A directory entry: whether it is a file with the extension `toml`, and what reading it returns.
pub record Entry : Type 0 where
  pub path : Text
  pub is_candidate : Bool
  pub content : Result Text Text

pub data Listing : Type 0 where
  missing : Listing
  unreadable : Text → Listing
  entries : List Entry → Listing

-- The diagnostics of `load_dir`.
pub data Refusal : Type 0 where
  unreadable_directory : Text → Refusal
  unreadable_file : Text → Text → Refusal
  malformed : Text → PackError → Refusal
  duplicate_name : Text → Text → Refusal

abbrev pub Loading : Type 0
Loading = List CommunityPack × List Refusal

abbrev has_name : Text → List CommunityPack → Bool
has_name name packs = any (λ p. eq_text p.name name) packs

-- `CommunityPacksConfig` resolved: an empty value of the environment counts as unset.
unfoldable pub resolve_dir_from_env : Option Text → Option Text → Option Text
resolve_dir_from_env none configured = configured
resolve_dir_from_env (some value) configured = if is_empty value then configured else some value

module _ (from_toml : Text → Result Text PackFile) where
  unfoldable parse_pack : Text → Result PackError CommunityPack
  unfolding check_pack
  parse_pack text = elim (from_toml text) [ err e ↦ err (not_toml e) | ok file ↦ check_pack file ]

  -- What a file adds; the names that were seen are those of the packs that are loaded.
  unfoldable add_pack : Text → Result PackError CommunityPack → Loading → Loading
  add_pack path (err reason) (packs, diags) = (packs, diags ++ malformed path reason ∷ [])
  add_pack path (ok pack) (packs, diags) =
      if has_name pack.name packs
      then (packs, diags ++ duplicate_name path pack.name ∷ [])
      else (packs ++ pack ∷ [], diags)

  unfoldable add_file : Text → Result Text Text → Loading → Loading
  unfolding parse_pack add_pack
  add_file path (err e) (packs, diags) = (packs, diags ++ unreadable_file path e ∷ [])
  add_file path (ok text) loaded = add_pack path (parse_pack text) loaded

  unfoldable load_entries : Loading → List Entry → Loading
  unfolding add_file
  load_entries loaded [] = loaded
  load_entries loaded (e ∷ es) =
      load_entries (if e.is_candidate then add_file e.path e.content loaded else loaded) es

  unfoldable pub load_dir : Listing → Loading
  unfolding load_entries
  load_dir missing = ([], [])
  load_dir (unreadable e) = ([], unreadable_directory e ∷ [])
  load_dir (entries es) = load_entries ([], []) es

-- `packs.iter().find(|p| &p.name == name)`
unfoldable find_pack : Text → List CommunityPack → Option CommunityPack
find_pack name [] = none
find_pack name (p ∷ ps) =
    let rest = find_pack name ps in if eq_text p.name name then some p else rest

abbrev add_enabled :
    Text → Option CommunityPack → List CommunityRule × List Text → List CommunityRule × List Text
add_enabled name none (rules, absent) = (rules, name ∷ absent)
add_enabled name (some pack) (rules, absent) = (pack.rules ++ rules, absent)

-- The rules of the enabled packs in the order of the names, and the names that no pack has.
unfoldable select_rules : List CommunityPack → List Text → List CommunityRule × List Text
unfolding find_pack
select_rules packs [] = ([], [])
select_rules packs (name ∷ names) =
    add_enabled name (find_pack name packs) (select_rules packs names)

-- The rules that are active, the names to warn of, and the diagnostics; `read_dir` is the file
-- system.
unfoldable pub active_rules :
    (Text → Result Text PackFile)
    → (Text → Listing)
    → Option Text
    → CommunityPacksConfig
    → (List CommunityRule × List Text) × List Refusal
unfolding load_dir select_rules resolve_dir_from_env
active_rules from_toml read_dir env cfg =
    if is_nil cfg.enabled then (([], []), []) else elim (resolve_dir_from_env env cfg.dir) [
      | none ↦ (([], cfg.enabled), [])
      | some dir ↦
          let (packs, diags) = load_dir from_toml (read_dir dir) in
          (select_rules packs cfg.enabled, diags)
    ]
