-- ===== src/Hook/PathGuard/Tests.antt =====
-- The guard on paths with detours.
use apohara_agentguard.Prelude.{
  Text, codes, true, false, none, [], ◌∷◌, ◌≡◌, refl, any, eq_text, split_char, starts_with,
  strip_prefix, to_ascii_lowercase,
}
use apohara_agentguard.Verdict.{block}
use apohara_agentguard.Hook.PathGuard.Again.{clean_path-clean_path}
use apohara_agentguard.Hook.PathGuard.Guarded.{spelled, check_path_ssh}
use apohara_agentguard.Hook.PathGuard.{
  parent_part, clean_part, clean_parts, is_absolute_path, clean_components, clean_path,
  fold_backslashes, at_home, strip_home_token, first_some, expand_home, check_path,
}

abbrev detour : Text
detour = codes "a/../../b/./c"

clean_path-clean_path_example : clean_path (clean_path detour) ≡ clean_path detour
clean_path-clean_path_example = clean_path-clean_path detour

abbrev key_path : Text
key_path = codes "~/x/../.SSH/id"

key_under_ssh :
    any
      (λ c. eq_text c (codes ".ssh"))
      (clean_components (spelled to_ascii_lowercase none key_path))
    ≡ true
unfolding clean_components clean_parts clean_part parent_part is_absolute_path expand_home
    first_some strip_prefix at_home fold_backslashes to_ascii_lowercase split_char starts_with
    eq_text
key_under_ssh = refl

check_path_ssh_example :
    (check_path to_ascii_lowercase none (codes "Read") key_path false).tier ≡ block
check_path_ssh_example =
    check_path_ssh to_ascii_lowercase none (codes "Read") key_path false key_under_ssh

abbrev etc_path : Text
etc_path = codes "/tmp/../etc/passwd"

etc_absolute : is_absolute_path (spelled to_ascii_lowercase none etc_path) ≡ true
unfolding is_absolute_path expand_home first_some strip_home_token strip_prefix fold_backslashes
    to_ascii_lowercase starts_with eq_text
etc_absolute = refl

etc_components :
    clean_components (spelled to_ascii_lowercase none etc_path) ≡ codes "etc" ∷ codes "passwd" ∷ []
unfolding clean_components clean_parts clean_part parent_part is_absolute_path expand_home
    first_some strip_home_token strip_prefix fold_backslashes to_ascii_lowercase split_char
    starts_with eq_text
etc_components = refl
