-- ===== src/Policy/Engine/Budget.antt =====
-- The counters of a session, over the events that are charged to it.
use Prim.Native.Nat.{min}
use apohara_agentguard.Prelude.{
  ℕ, ◌+◌, ◌≤◌, ◌<◌, Text, Option, none, some, List, [], ◌∷◌, ◌≡◌, ◌↔◌, refl, arith, length,
}
use apohara_agentguard.Contract.{Json, HookInput}
use apohara_agentguard.Policy.Schema.{lookup, Budgets}
use apohara_agentguard.Policy.Engine.{
  SessionCounters, no_counters, u64_max, charge, over, first_verdict, tool_caps, check_caps,
  charge_and_check, charge_for, budget_check, entry_of,
}

-- The charges of a session's events, oldest first.
unfoldable pub charge_all : List (Text × ℕ) → SessionCounters → SessionCounters
charge_all [] e = e
charge_all ((tool, tokens) ∷ cs) e = charge_all cs (charge tool tokens e)

unfoldable pub total_tokens : List (Text × ℕ) → ℕ
total_tokens [] = 0
total_tokens ((tool, tokens) ∷ cs) = tokens + total_tokens cs

-- The session's sums saturate at the largest 64-bit number: they are the true sums cut there.
pub charge_all_sums :
    (cs : List (Text × ℕ)) (e : SessionCounters)
    → e.tokens ≤ u64_max
    → e.tool_invocations ≤ u64_max
    → ((charge_all cs e).tokens ≡ min (e.tokens + total_tokens cs) u64_max)
      × ((charge_all cs e).tool_invocations ≡ min (e.tool_invocations + length cs) u64_max)
unfolding charge_all total_tokens charge
charge_all_sums [] e h k = (omega arith, omega arith)
charge_all_sums ((tool, tokens) ∷ cs) e h k =
    let rest = charge_all_sums cs (charge tool tokens e) (omega arith) (omega arith) in
    (omega (arith, rest.0), omega (arith, rest.1))

-- For a policy that caps the tokens and the calls of the session, both below the largest 64-bit
-- number, and no tool, the check after the charges of a session from the start says nothing exactly
-- where neither cap is passed.
pub check_caps_session :
    (b : Budgets) (tool : Text) (tokens max_tokens max_calls : ℕ) (cs : List (Text × ℕ))
    → b.session.max_tokens ≡ some max_tokens
    → b.session.max_tool_invocations ≡ some max_calls
    → b.per_tool ≡ []
    → max_tokens < u64_max
    → max_calls < u64_max
    → check_caps b tool tokens (charge_all cs no_counters) ≡ none
      ↔ (total_tokens cs ≤ max_tokens) × (length cs ≤ max_calls)
unfolding check_caps over first_verdict tool_caps lookup
check_caps_session b tool tokens max_tokens max_calls cs ht hc hp lt lc =
    let sums = charge_all_sums cs no_counters (omega arith) (omega arith) in
    rw (ht, hc, hp) (ground (arith, sums.0, sums.1))

module _ {V : Type 0} (json : Json V) where
  -- With counters that start afresh, a policy whose one cap is a cap of one or more on the session's
  -- calls never asks.
  pub budget_check_fresh :
      (b : Budgets) (input : HookInput V) (cap : ℕ)
      → b.session.max_tokens ≡ none
      → b.session.max_tool_invocations ≡ some cap
      → b.per_tool ≡ []
      → 1 ≤ cap
      → (budget_check json b input []).0 ≡ none
  unfolding budget_check
  budget_check_fresh b input cap ht hc hp h =
      charged b input.session_id (charge_for json input) cap ht hc hp h
    where
      charged :
          (b : Budgets) (key : Option Text) (c : Option (Text × ℕ)) (cap : ℕ)
          → b.session.max_tokens ≡ none
          → b.session.max_tool_invocations ≡ some cap
          → b.per_tool ≡ []
          → 1 ≤ cap
          → (charge_and_check b key c []).0 ≡ none
      charged b key none cap ht hc hp h = unfold charge_and_check in refl
      charged b key (some (tool, tokens)) cap ht hc hp h =
          unfold charge_and_check entry_of charge check_caps over first_verdict tool_caps lookup in
          rw (ht, hc, hp) (ground arith)
