-- ===== src/Gate/Compound/Nested.antt =====
-- src/gate/compound.rs: the legs of a substitution that a command starts with.
use apohara_agentguard.Prelude.{
  ◌++◌, ◌≡◌, refl, ◌∙◌, arith, Text, Bool, true, false, not, ◌&&◌, ◌||◌, some, [], ◌∷◌, ℕ, suc,
  ◌==◌, trim, split_once,
}
use apohara_agentguard.Gate.Compound.{
  start, one_turn, unquoted_turn, split_compound, leg_slice, paren_body, extract_paren_body,
  next_depth, is_assignment_prefix,
}
use apohara_agentguard.Gate.Compound.Equation.{run_cons}
use apohara_agentguard.Gate.Compound.Whole.{split_compound-run}

-- Whether the parentheses of a body match, given how many are open, and no backslash ends it.
unfoldable pub is_balanced : Bool → ℕ → Text → Bool
is_balanced escaped depth [] = not escaped && depth == 0
is_balanced true depth (c ∷ s) = is_balanced false depth s
is_balanced false depth (c ∷ s) =
    not (c == b')' && depth == 0) && is_balanced (c == b'\\') (next_depth c depth) s

paren_body_balanced :
    (escaped : Bool) (depth : ℕ) (body rest : Text)
    → is_balanced escaped depth body ≡ true
    → paren_body escaped (suc depth) (body ++ b')' ∷ rest)
      ≡ record { inner = body; taken = body ++ b')' ∷ []; behind = rest }
unfolding paren_body is_balanced
paren_body_balanced true depth [] rest h = ground (arith, h)
paren_body_balanced false depth [] rest h = ground (arith, h)
paren_body_balanced true depth (c ∷ s) rest h = rw (paren_body_balanced false depth s rest h) refl
paren_body_balanced false depth (c ∷ s) rest h =
    ground (arith, h, paren_body_balanced (c == b'\\') (next_depth c depth) s rest)

assignment_nil : is_assignment_prefix [] ≡ false
unfolding is_assignment_prefix trim split_once
assignment_nil = refl

-- `$(`, `<(` and `>(`
abbrev pub opens_body : ℕ → Bool
opens_body c = c == b'$' || c == b'<' || c == b'>'

substitute_turn :
    (mark : ℕ) (body rest : Text)
    → opens_body mark ≡ true
    → is_balanced false 0 body ≡ true
    → one_turn [] start mark (b'(' ∷ body ++ b')' ∷ rest)
      ≡ record { pushed = true; body = some body; cursor = start; rest = rest }
unfolding one_turn unquoted_turn extract_paren_body
substitute_turn mark body rest e h =
    ground (arith, e, assignment_nil, paren_body_balanced false 0 body rest h)

nil_slice : leg_slice [] ≡ []
unfolding leg_slice trim
nil_slice = refl

-- A command that starts with a substitution whose parentheses match gives the legs of the body,
-- then the legs of the text behind it.
pub split_compound-substitution :
    (mark : ℕ) (body rest : Text)
    → opens_body mark ≡ true
    → is_balanced false 0 body ≡ true
    → split_compound (mark ∷ b'(' ∷ body ++ b')' ∷ rest)
      ≡ split_compound body ++ split_compound rest
split_compound-substitution mark body rest e h =
    split_compound-run (mark ∷ b'(' ∷ body ++ b')' ∷ rest)
    ∙ run_cons start mark (b'(' ∷ body ++ b')' ∷ rest)
    ∙ rw (substitute_turn mark body rest e h, nil_slice, split_compound-run rest) refl
