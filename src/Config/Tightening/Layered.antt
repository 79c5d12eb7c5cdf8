-- ===== src/Config/Tightening/Layered.antt =====
-- `Config::load`, `Config::load_layered` and `Config::load_default_locations` of src/config.rs: the
-- user file as it stands, or with the project file merged over it.
mod Tests
use apohara_agentguard.Prelude.{
  ℕ, ◌≤◌, Text, codes, Bool, true, false, not, ◌||◌, ◌++◌, is_empty, ends_with, Option, none, some,
  List, [], ◌∷◌, ◌≡◌, inl, inr, refl, subst, ap, arith, map, All, All-map, if◌then◌else◌, Result,
  ok, err, ◌>>=◌, ◌>>◌, bind-eq-ok, ok-injective, Bool-cases,
}
use apohara_agentguard.Contract.{and_then, or_else}
use apohara_agentguard.Config.{Config, CustomBlock, default_config, level_preset}
use apohara_agentguard.Config.Validate.{
  ConfigError, validate, max_severity, BlockIsValid, IsValid, validate_iff,
}
use apohara_agentguard.Config.Tightening.Sound.{Tightens, merge_tightening-Tightens}
use apohara_agentguard.Config.Tightening.Effects.{
  only_custom_blocks, with_severity, merge_tightening_any_severity,
}
use apohara_agentguard.Config.Tightening.{TighteningPresence, Violation, merge_tightening}

-- What the code calls: the file system, and `toml`, with a table and a value seen through the keys
-- that are looked up.
pub record ConfigFiles (T V : Type 0) : Type 0 where
  pub exists : Text → Bool
  pub read : Text → Option Text
  pub parse_config : Text → Option Config
  pub parse_table : Text → Option T
  pub get : T → Text → Option V
  pub as_table : V → Option T

-- One constructor for each `with_context`
pub data LoadError : Type 0 where
  reading parsing : Text → LoadError
  loosening : Text → Text → Violation → LoadError
  invalid : Text → ConfigError → LoadError

abbrev pub or_fail : {A : Type 0} → LoadError → Option A → Result LoadError A
or_fail why none = err why
or_fail why (some a) = ok a

abbrev pub context : {E A : Type 0} → (E → LoadError) → Result E A → Result LoadError A
context why (ok a) = ok a
context why (err e) = err (why e)

-- `PathBuf::join` with a relative name
join_path : Text → Text → Text
join_path base name =
    if is_empty base || ends_with base (codes "/") then base ++ name else base ++ codes "/" ++ name

user_path : Option Text → List Text
unfolding join_path
user_path none = []
user_path (some home) = join_path (join_path home (codes "agentguard")) (codes "config.toml") ∷ []

-- The project file, then the user file, from `XDG_CONFIG_HOME` and `HOME`
pub default_config_paths : Option Text → Option Text → List Text
unfolding join_path user_path
default_config_paths xdg home =
    codes "agentguard.toml"
    ∷ user_path (or_else xdg (and_then home (λ h. some (join_path h (codes ".config")))))

abbrev is_some : {A : Type 0} → Option A → Bool
is_some none = false
is_some (some a) = true

module _ {T V : Type 0} (files : ConfigFiles T V) where
  contains_key : T → Text → Bool
  contains_key t key = is_some (files.get t key)

  contains_key_in : Option T → Text → Bool
  unfolding contains_key
  contains_key_in none key = false
  contains_key_in (some t) key = contains_key t key

  -- `TighteningPresence::from_toml`, on the parsed table
  presence_of : T → TighteningPresence
  unfolding contains_key contains_key_in
  presence_of tbl =
      let thresholds = and_then (files.get tbl (codes "thresholds")) files.as_table in
      let community_packs = and_then (files.get tbl (codes "community_packs")) files.as_table in
      record {
        thresholds_block_at = contains_key_in thresholds (codes "block_at");
        thresholds_warn_at = contains_key_in thresholds (codes "warn_at");
        allow_list = contains_key tbl (codes "allow_list");
        custom_blocks = contains_key tbl (codes "custom_blocks");
        tool_rules = contains_key tbl (codes "tool_rules");
        disable = contains_key tbl (codes "disable");
        disabled = contains_key tbl (codes "disabled");
        normalize = contains_key tbl (codes "normalize");
        level = contains_key tbl (codes "level");
        packs = contains_key tbl (codes "packs");
        policy = contains_key tbl (codes "policy");
        community_packs_enabled = contains_key_in community_packs (codes "enabled");
        community_packs_dir = contains_key_in community_packs (codes "dir");
        audit = contains_key tbl (codes "audit");
        canary = contains_key tbl (codes "canary");
      }

  pub from_toml : Text → Option TighteningPresence
  unfolding presence_of
  from_toml text = and_then (files.parse_table text) (λ tbl. some (presence_of tbl))

  pub load_file : Text → Result LoadError Config
  load_file path = do
    text ← or_fail (reading path) (files.read path)
    cfg ← or_fail (parsing path) (files.parse_config text)
    context (invalid path) (validate cfg)
    ok cfg

  pub load : Option Text → Result LoadError Config
  unfolding load_file
  load none = ok default_config
  load (some path) = if files.exists path then load_file path else ok default_config

  pub load_layered : Text → Text → Result LoadError Config
  unfolding load from_toml
  load_layered user project = do
    base ← load (some user)
    text ← or_fail (reading project) (files.read project)
    overlay ← or_fail (parsing project) (files.parse_config text)
    presence ← or_fail (parsing project) (from_toml text)
    merged ← context (loosening project user) (merge_tightening base overlay presence)
    context (invalid project) (validate merged)
    ok merged

  find_existing : List Text → Option Text
  find_existing [] = none
  find_existing (path ∷ paths) =
      let rest = find_existing paths in if files.exists path then some path else rest

  -- The `match` on the two files
  load_found : Option Text → Option Text → Result LoadError Config
  unfolding load load_layered
  load_found none none = ok default_config
  load_found (some p) none = load (some p)
  load_found none (some u) = load (some u)
  load_found (some p) (some u) = load_layered u p

  -- The project file is the first of the default paths.
  pub load_default_locations : List Text → Result LoadError Config
  unfolding find_existing load_found
  load_default_locations [] = load_found none none
  load_default_locations (project ∷ users) =
      load_found (if files.exists project then some project else none) (find_existing users)

  context-eq-ok :
      {E A : Type 0} (why : E → LoadError) (r : Result E A) {a : A}
      → context why r ≡ ok a
      → r ≡ ok a
  context-eq-ok why (ok x) h = cc (ok-injective h)
  context-eq-ok why (err e) h = cc

  or_fail-eq-ok :
      {A : Type 0} (why : LoadError) (o : Option A) {a : A} → or_fail why o ≡ ok a → o ≡ some a
  or_fail-eq-ok why none h = cc
  or_fail-eq-ok why (some x) h = ap some (ok-injective h)

  load_file-IsValid : (path : Text) {c : Config} → load_file path ≡ ok c → IsValid c
  unfolding load_file
  load_file-IsValid path h =
      let (text, h1, k1) = bind-eq-ok (or_fail (reading path) (files.read path)) _ h in
      let (cfg, h2, k2) = bind-eq-ok (or_fail (parsing path) (files.parse_config text)) _ k1 in
      let (done, h3, k3) = bind-eq-ok (context (invalid path) (validate cfg)) _ k2 in
      subst IsValid (ok-injective k3)
        ((validate_iff cfg).0 (context-eq-ok (invalid path) (validate cfg) h3))

  default_config-IsValid : IsValid default_config
  default_config-IsValid = record { ordered = omega arith; level = tt; blocks = tt; rules = tt }

  load-IsValid : (path : Text) {c : Config} → load (some path) ≡ ok c → IsValid c
  unfolding load
  load-IsValid path h = elim (Bool-cases (files.exists path)) [
    | inl e ↦ load_file-IsValid path (rw e at h)
    | inr e ↦ subst IsValid (ok-injective (rw e at h)) default_config-IsValid
  ]

  -- A layered load that succeeds gives a valid configuration that keeps of the loaded user
  -- configuration what a merge keeps.
  pub load_layered-Tightens :
      (user project : Text) {m : Config}
      → load_layered user project ≡ ok m
      → (base : Config) × (load (some user) ≡ ok base) × IsValid base × Tightens base m × IsValid m
  unfolding load_layered
  load_layered-Tightens user project h =
      let (base, h1, k1) = bind-eq-ok (load (some user)) _ h in
      let (text, h2, k2) = bind-eq-ok (or_fail (reading project) (files.read project)) _ k1 in
      let (overlay, h3, k3) =
        bind-eq-ok (or_fail (parsing project) (files.parse_config text)) _ k2 in
      let (p, h4, k4) = bind-eq-ok (or_fail (parsing project) (from_toml text)) _ k3 in
      let (merged, h5, k5) =
        bind-eq-ok (context (loosening project user) (merge_tightening base overlay p)) _ k4 in
      let (done, h6, k6) = bind-eq-ok (context (invalid project) (validate merged)) _ k5 in
      (
        base,
        h1,
        load-IsValid user h1,
        subst (Tightens base) (ok-injective k6) (
            merge_tightening-Tightens base overlay p
              (context-eq-ok (loosening project user) (merge_tightening base overlay p) h5)),
        subst IsValid (ok-injective k6)
            ((validate_iff merged).0 (context-eq-ok (invalid project) (validate merged) h6)),
      )

  with_severity-IsValid :
      (s : ℕ) (blocks : List CustomBlock)
      → s ≤ max_severity
      → All BlockIsValid blocks
      → All BlockIsValid (map (with_severity s) blocks)
  with_severity-IsValid s [] l h = tt
  with_severity-IsValid s (b ∷ bs) l (h, hs) = ((h.0, l), with_severity-IsValid s bs l hs)

  -- A project file that sets nothing but custom blocks, and repeats the user's with one severity from
  -- 0 to 9 in all of them, is accepted over a user file that loads, and the loaded configuration has
  -- that severity in all of them, also where it is below the user's.
  pub load_layered_any_severity :
      (user project text : Text) (base overlay : Config) (s : ℕ)
      → load (some user) ≡ ok base
      → files.read project ≡ some text
      → files.parse_config text ≡ some overlay
      → from_toml text ≡ some only_custom_blocks
      → overlay.custom_blocks ≡ map (with_severity s) base.custom_blocks
      → s ≤ max_severity
      → load_layered user project
        ≡ ok (record base { custom_blocks = map (with_severity s) base.custom_blocks })
  unfolding load_layered
  load_layered_any_severity user project text base overlay s l r c k e b =
      let v = load-IsValid user l in
      let merged : Config = record base {
        custom_blocks = map (with_severity s) base.custom_blocks;
      } in
      let valid : validate merged ≡ ok tt = (validate_iff merged).1 (record {
        ordered = v.ordered;
        level = v.level;
        blocks = with_severity-IsValid s base.custom_blocks b v.blocks;
        rules = v.rules;
      }) in
      rw (l, r, c, k, merge_tightening_any_severity base overlay s e, valid)
