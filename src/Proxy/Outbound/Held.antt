-- ===== src/Proxy/Outbound/Held.antt =====
-- src/proxy/relay/outbound.rs: the calls that the relay answers itself.
use apohara_agentguard.Prelude.{
  ◌≡◌, refl, sym, subst, arith, Text, codes, true, false, Option, none, some, [], ◌++◌, ◌⊎◌, inl,
  inr, Bool-cases, Result, ok,
}
use apohara_agentguard.Contract.{unwrap_or}
use apohara_agentguard.Proxy.Spoof.{IdRewriter}
use apohara_agentguard.Proxy.Span.{top_level_id_span}
use apohara_agentguard.Proxy.Gate.{GateDecision}
use apohara_agentguard.Proxy.Outbound.{
  RelayMode, enforce, IdValue, Message, Shared, Line, Outcome, Moment, Printers, refused, by_mode,
  decided, gated, handle_tools_call, handle_message, handle_client_line, handle_parsed, is_method,
  is_ambiguous,
}

module _ (p : Printers) {A : Type 0} (decide : Text → Option A → GateDecision) where
  -- The session refuses the call: it is quarantined, or enforces and the tool is blocked, or
  -- enforces and the gates deny the call.
  pub data Refuses (shared : Shared) (msg : Message A) : Type 0 where
    in_quarantine : shared.quarantined ≡ true → Refuses shared msg
    tool_blocked :
        (why : Text)
        → shared.mode ≡ enforce
        → shared.blocked_tool_reason (unwrap_or msg.tool_name []) ≡ some why
        → Refuses shared msg
    call_denied :
        shared.mode ≡ enforce
        → (decide (unwrap_or msg.tool_name []) msg.arguments).allowed ≡ false
        → Refuses shared msg

  refused-Held :
      (id : Option IdValue) (why : Text) (ids : IdRewriter)
      → ((refused p id why ids).tx_in ≡ []) × ((refused p id why ids).ids ≡ ids)
  unfolding refused
  refused-Held id why ids = ground arith

  by_mode-enforce :
      (mode : RelayMode) (held sent : Outcome) → mode ≡ enforce → by_mode p mode held sent ≡ held
  unfolding by_mode
  by_mode-enforce mode held sent e = rw e refl

  -- Nothing is sent upstream, and no id is minted.
  abbrev pub Held : Outcome → IdRewriter → Type 0
  Held out ids = (out.tx_in ≡ []) × (out.ids ≡ ids)

  decided-Held :
      (id : Option IdValue) (mode : RelayMode) (d : GateDecision) (sent : Outcome)
      (ids : IdRewriter)
      → mode ≡ enforce
      → d.allowed ≡ false
      → Held (decided p decide id mode d sent ids) ids
  unfolding decided
  decided-Held id mode d sent ids e n =
      rw (n, by_mode-enforce mode (refused p id d.reason ids) sent e) (refused-Held id d.reason ids)

  gated-Held :
      (msg : Message A) (shared : Shared) (sent : Outcome) (why : Option Text)
      → shared.mode ≡ enforce
      → (decide (unwrap_or msg.tool_name []) msg.arguments).allowed ≡ false
        ⊎ ((w : Text) × (why ≡ some w))
      → Held (gated p decide msg shared sent why) shared.ids
  unfolding gated
  gated-Held msg shared sent (some w) e c =
      let text = codes "tool blocked by agentguard: " ++ w in
      rw (by_mode-enforce shared.mode (refused p msg.id text shared.ids) sent e)
        (refused-Held msg.id text shared.ids)
  gated-Held msg shared sent none e (inl n) = decided-Held msg.id shared.mode _ sent shared.ids e n
  gated-Held msg shared sent none e (inr (w, h)) = cc

  tools_call-Held :
      (msg : Message A) (shared : Shared) (sent : Outcome)
      → Refuses shared msg
      → Held (handle_tools_call p decide msg shared sent) shared.ids
  unfolding handle_tools_call
  tools_call-Held msg shared sent r = elim (Bool-cases shared.quarantined) [
    | inl q ↦
        let text =
          codes "session quarantined: "
          ++ unwrap_or shared.quarantine_reason (codes "session quarantined") in
        rw q (refused-Held msg.id text shared.ids)
    | inr q ↦ rw q (elim r [
      | in_quarantine h ↦ cc
      | tool_blocked why e h ↦ gated-Held msg shared sent _ e (inr (why, h))
      | call_denied e n ↦ gated-Held msg shared sent _ e (inl n)
    ])
  ]

  parsed-Held :
      (line : Line) (msg : Message A) (shared : Shared) (at : Moment)
      → is_method msg.method (codes "tools/call") ≡ true
      → Refuses shared msg
      → Held (handle_parsed p decide line (ok msg) shared at) shared.ids
  unfolding handle_parsed handle_message
  parsed-Held line msg shared at m r = elim (Bool-cases (is_ambiguous (top_level_id_span line))) [
    | inl a ↦ rw a (refl, refl)
    | inr a ↦ rw (a, m) (tools_call-Held msg shared _ r)
  ]

  -- A line of the client that reads as a call which the session refuses is not sent upstream, and
  -- mints no id.
  pub handle_client_line-Held :
      (parse : Line → Result Text (Message A)) (line : Line) (msg : Message A) (shared : Shared)
      (at : Moment)
      → parse line ≡ ok msg
      → is_method msg.method (codes "tools/call") ≡ true
      → Refuses shared msg
      → Held (handle_client_line p decide parse line shared at) shared.ids
  unfolding handle_client_line
  handle_client_line-Held parse line msg shared at e m r =
      subst (λ read. Held (handle_parsed p decide line read shared at) shared.ids) (sym e)
        (parsed-Held line msg shared at m r)
