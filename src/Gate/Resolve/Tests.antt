-- ===== src/Gate/Resolve/Tests.antt =====
-- Runs of src/gate/resolve.rs.
use apohara_agentguard.Prelude.{
  ◌≡◌, refl, codes, List, [], ◌∷◌, ◌++◌, some, true, arith, false, All,
}
use apohara_agentguard.Gate.Resolve.Expand.{resolve_assignments}
use apohara_agentguard.Gate.Resolve.Expand.Alias.{resolve_assignments-alias}
use apohara_agentguard.Gate.Resolve.{parse_assignment, is_valid_var_name}

resolves_alias :
    resolve_assignments (codes "x=rm" ∷ codes "$x -rf ${y:-'~'}" ∷ [])
    ≡ codes "x=rm" ∷ codes "rm -rf ~" ∷ []
unfolding resolve_assignments apohara_agentguard.Prelude.contains_char
    apohara_agentguard.Prelude.is_ascii_alphanumeric
    apohara_agentguard.Gate.Resolve.Expand.lookup_var
    apohara_agentguard.Gate.Resolve.parse_assignment apohara_agentguard.Prelude.split_once
    apohara_agentguard.Prelude.trim apohara_agentguard.Gate.Resolve.is_valid_var_name
    apohara_agentguard.Prelude.eq_text apohara_agentguard.Prelude.starts_with
    apohara_agentguard.Prelude.ends_with
resolves_alias = refl

resolves_echo :
    resolve_assignments (codes "export x=\"$(echo -n rm)\"" ∷ codes "$x -rf ~" ∷ [])
    ≡ codes "export x=\"$(echo -n rm)\"" ∷ codes "rm -rf ~" ∷ []
unfolding resolve_assignments apohara_agentguard.Prelude.contains_char
    apohara_agentguard.Prelude.is_ascii_alphanumeric
    apohara_agentguard.Gate.Resolve.Expand.lookup_var
    apohara_agentguard.Gate.Resolve.parse_assignment apohara_agentguard.Prelude.split_once
    apohara_agentguard.Prelude.trim apohara_agentguard.Gate.Resolve.is_valid_var_name
    apohara_agentguard.Prelude.eq_text apohara_agentguard.Prelude.starts_with
    apohara_agentguard.Prelude.ends_with apohara_agentguard.Gate.Resolve.parse_first_token
resolves_echo = refl

resolves_quotes :
    resolve_assignments (codes "x=\"r\"'m'" ∷ codes "x=$x" ∷ codes "$x -f" ∷ [])
    ≡ codes "x=\"r\"'m'" ∷ codes "x=rm" ∷ codes "rm -f" ∷ []
unfolding resolve_assignments apohara_agentguard.Prelude.contains_char
    apohara_agentguard.Prelude.is_ascii_alphanumeric
    apohara_agentguard.Gate.Resolve.Expand.lookup_var
    apohara_agentguard.Gate.Resolve.parse_assignment apohara_agentguard.Prelude.split_once
    apohara_agentguard.Prelude.trim apohara_agentguard.Gate.Resolve.is_valid_var_name
    apohara_agentguard.Prelude.eq_text apohara_agentguard.Prelude.starts_with
    apohara_agentguard.Prelude.ends_with
resolves_quotes = refl

assigns_alias : parse_assignment (codes "export x=rm") ≡ some (codes "x", codes "rm")
unfolding parse_assignment apohara_agentguard.Prelude.split_once apohara_agentguard.Prelude.trim
    is_valid_var_name apohara_agentguard.Prelude.is_ascii_alphabetic
    apohara_agentguard.Prelude.contains_char apohara_agentguard.Prelude.eq_text
    apohara_agentguard.Prelude.starts_with
assigns_alias = refl

names_alias : is_valid_var_name (codes "x") ≡ true
unfolding is_valid_var_name apohara_agentguard.Prelude.is_ascii_alphabetic
names_alias = refl

resolve_assignments-alias_example :
    resolve_assignments (codes "export x=rm" ∷ (b'$' ∷ codes "x" ++ codes " -rf ~") ∷ [])
    ≡ codes "export x=rm" ∷ (codes "rm" ++ codes " -rf ~") ∷ []
unfolding apohara_agentguard.Prelude.contains_char apohara_agentguard.Prelude.is_ascii_alphanumeric
resolve_assignments-alias_example =
    resolve_assignments-alias (codes "export x=rm") (codes "x") (codes "rm") (codes " -rf ~") refl
      assigns_alias names_alias refl refl refl
