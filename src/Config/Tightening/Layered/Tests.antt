-- ===== src/Config/Tightening/Layered/Tests.antt =====
-- A user file with one block, and a project file that repeats its pattern with a severity of 0.
use apohara_agentguard.Prelude.{
  Text, codes, true, none, some, List, [], ◌∷◌, ◌≡◌, refl, arith, map, eq_text, ends_with,
  contains_text, if◌then◌else◌, ok,
}
use apohara_agentguard.Config.{Config, default_config}
use apohara_agentguard.Config.Validate.{validate}
use apohara_agentguard.Config.Tightening.Effects.{only_custom_blocks, with_severity}
use apohara_agentguard.Config.Tightening.Layered.{
  ConfigFiles, default_config_paths, join_path, user_path, load, load_file, from_toml, load_layered,
  load_layered_any_severity,
}

abbrev user_config : Config
user_config = record default_config {
  custom_blocks = record { pattern = codes "rm"; severity = 9; category = codes "fs" } ∷ [];
}

abbrev project_config : Config
project_config = record default_config {
  custom_blocks = record { pattern = codes "rm"; severity = 0; category = codes "fs" } ∷ [];
}

-- The text of a file is its path; the project file has one key.
abbrev two_files : ConfigFiles (List Text) Unit
two_files = record {
  exists = λ path. true;
  read = λ path. some path;
  parse_config =
      λ text. if eq_text text (codes "user") then some user_config else some project_config;
  parse_table = λ text. some (codes "custom_blocks" ∷ []);
  get = λ keys key. if contains_text keys key then some tt else none;
  as_table = λ v. none;
}

user_home :
    default_config_paths none (some (codes "/home/u"))
    ≡ codes "agentguard.toml" ∷ codes "/home/u/.config/agentguard/config.toml" ∷ []
unfolding default_config_paths join_path user_path ends_with
user_home = refl

user_loads : load two_files (some (codes "user")) ≡ ok user_config
unfolding load load_file validate eq_text
user_loads = refl

one_key : from_toml two_files (codes "project") ≡ some only_custom_blocks
unfolding from_toml eq_text
one_key = refl

parsed_project : two_files.parse_config (codes "project") ≡ some project_config
unfolding eq_text
parsed_project = refl

load_layered_any_severity_example :
    load_layered two_files (codes "user") (codes "project")
    ≡ ok (record user_config { custom_blocks = map (with_severity 0) user_config.custom_blocks })
load_layered_any_severity_example =
    load_layered_any_severity two_files (codes "user") (codes "project") (codes "project")
      user_config project_config 0 user_loads refl parsed_project one_key refl (omega arith)
