-- ===== src/Hook/PathGuard.antt =====
-- src/hook/pathguard.rs: the paths that a tool may not read or write.
pub mod Clean
pub mod Again
pub mod Guarded
mod Tests
use apohara_agentguard.Prelude.{
  ℕ, Text, codes, Bool, true, false, not, ◌&&◌, ◌||◌, Option, none, some, List, [], ◌∷◌, ◌++◌, any,
  map, reverse, ◌==◌, eq_text, contains_text, is_empty, contains, split_char, starts_with,
  ends_with, strip_prefix, if◌then◌else◌,
}
use apohara_agentguard.Verdict.{Verdict, allow_verdict, block_verdict}
use apohara_agentguard.Contract.{or_else, and_then, unwrap_or}

-- The part `..`; the components stand last first, so that `push` is `∷`.
parent_part : Bool → List Text → List Text
parent_part is_absolute [] = if is_absolute then [] else codes ".." ∷ []
parent_part is_absolute (last ∷ components) =
    if is_absolute
    then components
    else if not (eq_text last (codes ".."))
    then components
    else codes ".." ∷ last ∷ components

pub clean_part : Bool → List Text → Text → List Text
unfolding parent_part
clean_part is_absolute components part =
    if is_empty part || eq_text part (codes ".")
    then components
    else if eq_text part (codes "..")
    then parent_part is_absolute components
    else part ∷ components

pub clean_parts : Bool → List Text → List Text → List Text
unfolding clean_part
clean_parts is_absolute components [] = components
clean_parts is_absolute components (part ∷ parts) =
    clean_parts is_absolute (clean_part is_absolute components part) parts

-- `components.join("/")`
pub join : List Text → Text
join [] = []
join (c ∷ []) = c
join (c ∷ d ∷ cs) = c ++ b'/' ∷ join (d ∷ cs)

pub is_absolute_path : Text → Bool
is_absolute_path path = starts_with path (codes "/")

-- The components of the cleaned path, first to last
pub clean_components : Text → List Text
unfolding clean_parts is_absolute_path split_char
clean_components path = reverse (clean_parts (is_absolute_path path) [] (split_char b'/' path))

pub clean_path : Text → Text
unfolding clean_components join is_absolute_path
clean_path path =
    if is_absolute_path path
    then b'/' ∷ join (clean_components path)
    else join (clean_components path)

-- `replace('\\', "/")`
pub fold_backslashes : Text → Text
fold_backslashes = map (λ c. if c == 92 then b'/' else c)

pub trim_end_slashes : Text → Text
trim_end_slashes s = reverse (drop_slashes (reverse s))
  where
    drop_slashes : Text → Text
    drop_slashes [] = []
    drop_slashes (c ∷ s) = let rest = drop_slashes s in if c == b'/' || c == 92 then rest else c ∷ s

pub join_home : Text → Text → Text
unfolding fold_backslashes trim_end_slashes
join_home home rest = trim_end_slashes home ++ b'/' ∷ fold_backslashes rest

pub at_home : Option Text → Text → Text
unfolding fold_backslashes join_home
at_home none rest = codes "~/" ++ fold_backslashes rest
at_home (some home) rest = join_home home rest

pub strip_home_token : Text → Text → Option Text
unfolding strip_prefix
strip_home_token path token = and_then (strip_prefix path token) (λ rest.
    some (unwrap_or (or_else (strip_prefix rest (codes "/")) (strip_prefix rest (92 ∷ []))) rest))

first_some : Option Text → (Text → Text) → Text → Text
first_some none f later = later
first_some (some a) f later = f a

-- The home directory is read from the environment; here it is an argument.
pub expand_home : Option Text → Text → Text
unfolding at_home strip_home_token strip_prefix first_some
expand_home home path =
    first_some (or_else (strip_prefix path (codes "~/")) (strip_prefix path (b'~' ∷ 92 ∷ [])))
      (at_home home)
      (if eq_text path (codes "~")
        then unwrap_or home (codes "~")
        else first_some
            (or_else (strip_home_token path (codes "$HOME"))
              (strip_home_token path (codes "%USERPROFILE%")))
            (at_home home) path)

-- `Path::file_name` of a cleaned path: its last component, when that is a name
abbrev last_component : List Text → Text → Text
last_component [] t = t
last_component (c ∷ cs) t = last_component cs c

pub file_name : Text → Text
unfolding split_char
file_name norm =
    let last = last_component (split_char b'/' norm) [] in
    if is_empty last || eq_text last (codes "..") then norm else last

pub has_ssh_dir : Text → Bool
unfolding split_char
has_ssh_dir norm = any (λ comp. eq_text comp (codes ".ssh")) (split_char b'/' norm)

-- `while let Some(stripped) = rest.strip_prefix("../") { rest = stripped; }`
pub skip_parents : Text → Text
skip_parents (a ∷ b ∷ c ∷ rest) =
    let skipped = skip_parents rest in
    if a == b'.' && (b == b'.' && c == b'/') then skipped else a ∷ b ∷ c ∷ rest
skip_parents short = short

abbrev under : Text → Text → Bool
under norm dir = starts_with norm (dir ++ codes "/") || eq_text norm dir

-- `is_etc_path`, for a build that is not for Windows
pub is_etc_path : Text → Bool
unfolding starts_with skip_parents is_absolute_path
is_etc_path norm =
    under norm (codes "/etc")
    || under norm (codes "/private/etc")
    || (not (is_absolute_path norm)
        && (under (skip_parents norm) (codes "etc")
            || under (skip_parents norm) (codes "private/etc")))

pub is_dotenv : Text → Bool
unfolding starts_with
is_dotenv file =
    eq_text file (codes ".env")
    || starts_with file (codes ".env.")
    || starts_with file (codes ".env_")
    || starts_with file (codes ".env-")
    || eq_text file (codes ".envrc")
    || eq_text file (codes ".envfile")

abbrev private_keys : List Text
private_keys =
    codes "id_rsa"
    ∷ codes "id_ed25519"
    ∷ codes "id_dsa"
    ∷ codes "id_ecdsa"
    ∷ codes "id_ed25519_sk"
    ∷ codes "id_ecdsa_sk"
    ∷ codes "id_dsa_sk"
    ∷ codes "id_rsa_sk"
    ∷ []

abbrev credential_files : List Text
credential_files =
    codes ".netrc" ∷ codes "_netrc" ∷ codes ".pgpass" ∷ codes ".npmrc" ∷ codes ".dockercfg" ∷ []

pub secret_read_target : Text → Option Text
unfolding has_ssh_dir is_etc_path file_name is_dotenv ends_with contains
secret_read_target norm =
    let file = file_name norm in
    if has_ssh_dir norm
    then some (codes "path under ~/.ssh")
    else if is_etc_path norm
    then some (codes "system path under /etc")
    else if is_dotenv file
    then some (codes "dotenv file")
    else if ends_with file (codes ".pem") || ends_with file (codes ".key")
    then some (codes "key material (.pem/.key)")
    else if contains_text private_keys file
    then some (codes "ssh private key")
    else if contains file (codes "credentials") || contains_text credential_files file
    then some (codes "credentials file")
    else none

abbrev profiles : List Text
profiles =
    codes ".bashrc"
    ∷ codes ".bash_profile"
    ∷ codes ".bash_login"
    ∷ codes ".bash_logout"
    ∷ codes ".profile"
    ∷ codes ".zshrc"
    ∷ codes ".zprofile"
    ∷ codes ".zshenv"
    ∷ codes ".zlogin"
    ∷ codes ".zlogout"
    ∷ codes ".cshrc"
    ∷ codes ".tcshrc"
    ∷ codes ".fishrc"
    ∷ codes "config.fish"
    ∷ []

pub sensitive_write_target : Text → Option Text
unfolding has_ssh_dir is_etc_path file_name
sensitive_write_target norm =
    if has_ssh_dir norm
    then some (codes "path under ~/.ssh")
    else if is_etc_path norm
    then some (codes "system path under /etc")
    else if contains_text profiles (file_name norm)
    then some (codes "shell profile file")
    else none

module _ (to_lowercase : Text → Text) (home : Option Text) where
  pub normalize : Text → Text
  unfolding expand_home fold_backslashes clean_path
  normalize path = clean_path (to_lowercase (fold_backslashes (expand_home home path)))

abbrev quoted : Text → Text → Text
quoted path reason = codes "path `" ++ path ++ codes "` blocked: " ++ reason

block_write : Text → Text → Option Text → Option Text → Verdict
block_write tool path (some reason) secret =
    block_verdict (tool ++ codes " write to sensitive " ++ quoted path reason)
block_write tool path none (some reason) =
    block_verdict (tool ++ codes " write to secret " ++ quoted path reason)
block_write tool path none none = allow_verdict

block_read : Text → Text → Option Text → Verdict
block_read tool path (some reason) =
    block_verdict (tool ++ codes " of secret " ++ quoted path reason)
block_read tool path none = allow_verdict

-- `check_path`, after the path is normalized
pub check_normalized : Text → Text → Text → Bool → Verdict
unfolding block_write block_read secret_read_target sensitive_write_target
check_normalized tool path norm write =
    if write
    then block_write tool path (sensitive_write_target norm) (secret_read_target norm)
    else block_read tool path (secret_read_target norm)

unfoldable pub check_path : (Text → Text) → Option Text → Text → Text → Bool → Verdict
unfolding normalize check_normalized
check_path to_lowercase home tool path write =
    check_normalized tool path (normalize to_lowercase home path) write
