-- ===== src/Gate/Compound/Tests.antt =====
-- Runs of src/gate/compound.rs.
use apohara_agentguard.Prelude.{
  ◌≡◌, refl, codes, List, [], ◌∷◌, ◌++◌, some, true, arith, false, All,
}
use apohara_agentguard.Gate.Compound.{
  split_compound, extract_double_quoted_substitutions, is_assignment_prefix, walk_legs, start,
}
use apohara_agentguard.Gate.Compound.Quoting.{is_closed, split_compound-sequence}
use apohara_agentguard.Gate.Compound.Nested.{is_balanced, split_compound-substitution}
use apohara_agentguard.Gate.Compound.Equation.{run, walk_fuel}
use apohara_agentguard.Gate.Compound.Whole.{split_compound-run}

cuts_at_operators :
    split_compound (codes "git status && echo done | tee x")
    ≡ codes "git status" ∷ codes "echo done" ∷ codes "tee x" ∷ []
unfolding split_compound apohara_agentguard.Prelude.contains_char apohara_agentguard.Prelude.trim
cuts_at_operators = refl

cuts_at_substitutions :
    split_compound (codes "echo $(rm -rf ~) hi; x=$(echo rm) y")
    ≡ codes "echo" ∷ codes "rm -rf ~" ∷ codes "hi" ∷ codes "echo rm" ∷ codes "x=$(echo rm) y" ∷ []
unfolding split_compound apohara_agentguard.Prelude.contains_char apohara_agentguard.Prelude.trim
    is_assignment_prefix apohara_agentguard.Prelude.split_once
    apohara_agentguard.Prelude.is_ascii_alphabetic
cuts_at_substitutions = refl

finds_live_bodies :
    extract_double_quoted_substitutions (codes "echo \"a $(rm -rf ~)\" '$(ls)'")
    ≡ codes "rm -rf ~" ∷ []
unfolding extract_double_quoted_substitutions
finds_live_bodies = refl

quoted_separator : is_closed false false false (codes "echo 'a;b'") ≡ true
unfolding is_closed
quoted_separator = refl

split_compound-sequence_example :
    split_compound (codes "echo 'a;b'" ++ b';' ∷ codes "rm -rf \"")
    ≡ split_compound (codes "echo 'a;b'") ++ split_compound (codes "rm -rf \"")
split_compound-sequence_example =
    split_compound-sequence (codes "echo 'a;b'") b';' (codes "rm -rf \"") quoted_separator refl

nested_balanced : is_balanced false 0 (codes "echo $(id)") ≡ true
unfolding is_balanced
nested_balanced = refl

split_compound-substitution_example :
    split_compound (b'$' ∷ b'(' ∷ codes "echo $(id)" ++ b')' ∷ codes " | sh")
    ≡ split_compound (codes "echo $(id)") ++ split_compound (codes " | sh")
split_compound-substitution_example =
    split_compound-substitution b'$' (codes "echo $(id)") (codes " | sh") refl nested_balanced

split_compound-run_example : split_compound (codes "ls -la") ≡ run start (codes "ls -la")
split_compound-run_example = split_compound-run (codes "ls -la")

walk_fuel_example : walk_legs 7 [] start (codes "a && b") ≡ walk_legs 9 [] start (codes "a && b")
walk_fuel_example = walk_fuel 7 9 [] start (codes "a && b") (omega arith) (omega arith)
