-- ===== src/Policy/Schema.antt =====
-- src/policy/schema.rs: the policy file.
use apohara_agentguard.Prelude.{ℕ, Text, Option, none, some, List, [], ◌∷◌, eq_text, if◌then◌else◌}

abbrev pub current_schema_version : ℕ
current_schema_version = 1

pub data DefaultAction : Type 0 where
  allow deny : DefaultAction

pub record Defaults : Type 0 where
  pub default_action : DefaultAction

pub record ToolRule : Type 0 where
  pub arg : Text
  pub pattern : Text
  pub severity : ℕ
  pub reason : Text

pub record ToolSpec : Type 0 where
  pub name : Text
  pub allow : List Text
  pub deny : List Text
  pub rules : List ToolRule

pub record ToolBudget : Type 0 where
  pub max_tokens : Option ℕ
  pub max_invocations : Option ℕ

pub record SessionBudget : Type 0 where
  pub max_tokens : Option ℕ
  pub max_tool_invocations : Option ℕ

-- A `BTreeMap<String, V>`; the program looks keys up and never walks it.
abbrev pub Map : Type 0 → Type 0
Map V = List (Text × V)

module _ {V : Type 0} where
  unfoldable pub lookup : Text → Map V → Option V
  lookup k [] = none
  lookup k ((j, v) ∷ m) = if eq_text j k then some v else lookup k m

  unfoldable pub insert : Text → V → Map V → Map V
  insert k v [] = (k, v) ∷ []
  insert k v ((j, w) ∷ m) = if eq_text j k then (k, v) ∷ m else (j, w) ∷ insert k v m

pub record Budgets : Type 0 where
  pub session : SessionBudget
  pub per_tool : Map ToolBudget

pub record PolicyFile : Type 0 where
  pub schema_version : ℕ
  pub defaults : Defaults
  pub tools : List ToolSpec
  pub budgets : Budgets
