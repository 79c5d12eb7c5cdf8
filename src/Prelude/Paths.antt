-- ===== src/Prelude/Paths.antt =====
-- The equality of `std::path::PathBuf`, which compares the components of two Unix paths.
use apohara_agentguard.Prelude.{
  Text, codes, Bool, true, false, not, ◌&&◌, List, [], ◌∷◌, filter, is_empty, eq_text, starts_with,
  split_char, if◌then◌else◌,
}

leads_with_dot : List Text → Bool
leads_with_dot [] = false
leads_with_dot (part ∷ parts) = eq_text part (codes ".")

-- `Path::components`: the root, a `.` in front, and the parts without the empty ones and the other `.`
pub path_components : Text → List Text
unfolding leads_with_dot
path_components path =
    let parts = split_char b'/' path in
    let names = filter (λ part. not (is_empty part) && not (eq_text part (codes "."))) parts in
    if starts_with path (codes "/")
    then codes "/" ∷ names
    else if leads_with_dot parts
    then codes "." ∷ names
    else names

same_components : List Text → List Text → Bool
same_components [] [] = true
same_components (a ∷ xs) (b ∷ ys) = eq_text a b && same_components xs ys
same_components _ _ = false

pub same_path : Text → Text → Bool
unfolding path_components same_components
same_path a b = same_components (path_components a) (path_components b)
