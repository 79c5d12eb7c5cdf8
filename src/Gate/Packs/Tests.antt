-- ===== src/Gate/Packs/Tests.antt =====
-- A directory of two packs with one name, and one of a malformed file.
use apohara_agentguard.Prelude.{
  ◌≡◌, refl, codes, [], ◌∷◌, Text, Result, ok, err, true, if◌then◌else◌, eq_text,
}
use apohara_agentguard.Gate.Packs.{
  PackFile, CommunityRule, Entry, Listing, entries, load_dir, duplicate_name, malformed, not_toml,
}
use apohara_agentguard.Gate.Packs.Loaded.{PacksAreLoaded, load_dir-PacksAreLoaded}

abbrev org_rule : CommunityRule
org_rule = record {
  id = codes "a";
  pattern = codes "deploy*prod";
  severity = 9;
  category = codes "org";
}

abbrev org_pack : PackFile
org_pack = record { schema_version = 1; name = codes "my-org"; rules = org_rule ∷ [] }

abbrev read_toml : Text → Result Text PackFile
read_toml text = if eq_text text (codes "pack") then ok org_pack else err (codes "bad")

abbrev entry : Text → Text → Entry
entry path text = record { path = path; is_candidate = true; content = ok text }

abbrev listing : Listing
listing = entries (
    entry (codes "a.toml") (codes "pack")
    ∷ entry (codes "b.toml") (codes "pack")
    ∷ entry (codes "c.toml") (codes "x")
    ∷ [])

loads_first_of_name : load_dir read_toml listing ≡ (
  record { name = codes "my-org"; rules = org_rule ∷ [] } ∷ [],
  duplicate_name (codes "b.toml") (codes "my-org")
      ∷ malformed (codes "c.toml") (not_toml (codes "bad"))
      ∷ [],
)
unfolding load_dir eq_text
loads_first_of_name = refl

load_dir-PacksAreLoaded_example : PacksAreLoaded (load_dir read_toml listing).0
load_dir-PacksAreLoaded_example = load_dir-PacksAreLoaded read_toml listing
