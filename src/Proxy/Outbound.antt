-- ===== src/Proxy/Outbound.antt =====
-- src/proxy/relay/outbound.rs: what the relay does with a line of the client.
--
-- `parse` stands for the JSON reader, `decide` for `evaluate_tool_call` with the gates of the
-- session, and the two printers for the JSON of the answers that the relay makes itself. The two
-- channels are the lists of the lines that are sent; the diagnostics on stderr are left out.
pub mod Held
mod Tests
use apohara_agentguard.Prelude.{
  ℕ, Text, codes, Bool, true, false, not, ◌&&◌, ◌||◌, Option, none, some, List, [], ◌∷◌, ◌++◌,
  eq_text, Result, ok, err, if◌then◌else◌, ◌-◌,
}
use apohara_agentguard.Contract.{unwrap_or}
use apohara_agentguard.Proxy.Gate.{GateDecision}
use apohara_agentguard.Proxy.Spoof.{
  IdRewriter, RegisterError, overloaded, rng_unavailable, Draw, register,
}
use apohara_agentguard.Proxy.Span.{
  IdSpan, absent, ambiguous, found, top_level_id_span, splice_span, take, drop,
}

pub data RelayMode : Type 0 where
  enforce filter_only audit_only : RelayMode

pub data IdValue : Type 0 where
  null : IdValue
  value : Text → IdValue

-- What the handler reads of a message.
pub record Message (A : Type 0) : Type 0 where
  pub id : Option IdValue
  pub method : Option Text
  pub has_result : Bool
  pub has_error : Bool
  pub tool_name : Option Text
  pub arguments : Option A

pub record Shared : Type 0 where
  pub quarantined : Bool
  pub quarantine_reason : Option Text
  pub blocked_tool_reason : Text → Option Text
  pub mode : RelayMode
  pub ids : IdRewriter

abbrev pub Line : Type 0
Line = List ℕ

-- The error that ends the session, the lines sent upstream and to the client, and the id table.
pub record Outcome : Type 0 where
  pub fault : Option Text
  pub tx_in : List Line
  pub tx_out : List Line
  pub ids : IdRewriter

-- The clock, and the random source.
pub record Moment : Type 0 where
  pub now : ℕ
  pub draws : Draw × Draw × Draw

pub record Printers : Type 0 where
  pub blocked_response : IdValue → Text → Line
  pub overloaded_response : IdValue → Line
  pub truncate_for_log : Line → Text

abbrev id_or_null : Option IdValue → IdValue
id_or_null none = null
id_or_null (some v) = v

abbrev pub has_replyable_id : Option IdValue → Bool
has_replyable_id (some (value v)) = true
has_replyable_id _ = false

abbrev pub is_method : Option Text → Text → Bool
is_method none name = false
is_method (some m) name = eq_text m name

-- `line[start..end]`
abbrev span_text : Line → ℕ → ℕ → Line
span_text line s e = take (e - s) (drop s line)

abbrev silent : IdRewriter → Outcome
silent ids = record { fault = none; tx_in = []; tx_out = []; ids = ids }

abbrev forwarded : Line → IdRewriter → Outcome
forwarded line ids = record { fault = none; tx_in = line ∷ []; tx_out = []; ids = ids }

abbrev answered : Line → IdRewriter → Outcome
answered line ids = record { fault = none; tx_in = []; tx_out = line ∷ []; ids = ids }

abbrev failed : Text → IdRewriter → Outcome
failed why ids = record { fault = some why; tx_in = []; tx_out = []; ids = ids }

abbrev is_ambiguous : IdSpan → Bool
is_ambiguous ambiguous = true
is_ambiguous _ = false

module _ (p : Printers) where
  abbrev ambiguous_line : Line → Text
  ambiguous_line line =
      codes "ambiguous client line: duplicate top-level \"id\" member: " ++ p.truncate_for_log line

  -- What becomes of the answer of `register`.
  unfoldable send_registered :
      Line → ℕ × ℕ → IdValue → Result RegisterError Text → IdRewriter → Outcome
  send_registered line span id (ok quoted) ids = forwarded (splice_span line span quoted) ids
  send_registered line span id (err overloaded) ids = answered (p.overloaded_response id) ids
  send_registered line span id (err (rng_unavailable e)) ids =
      answered
        (p.blocked_response id
          (codes "internal error: secure randomness unavailable (" ++ e ++ codes ")"))
        ids

  unfoldable pub forward_with_proxied_id :
      Line → IdSpan → IdValue → Bool → Moment → IdRewriter → Outcome
  unfolding send_registered
  forward_with_proxied_id line absent id is_tools_list at ids = forwarded line ids
  forward_with_proxied_id line ambiguous id is_tools_list at ids = failed (ambiguous_line line) ids
  forward_with_proxied_id line (found s e) id is_tools_list at ids =
      let (answer, later) = register at.now at.draws (span_text line s e) is_tools_list ids in
      send_registered line (s, e) id answer later

  -- The answer to a call that is not forwarded, when the call can be answered.
  unfoldable refused : Option IdValue → Text → IdRewriter → Outcome
  refused id why ids =
      if has_replyable_id id
      then answered (p.blocked_response (id_or_null id) why) ids
      else silent ids

  -- A call that is refused: held back in the mode that enforces, forwarded in the others.
  unfoldable by_mode : RelayMode → Outcome → Outcome → Outcome
  by_mode enforce held sent = held
  by_mode filter_only held sent = sent
  by_mode audit_only held sent = sent

  module _ {A : Type 0} (decide : Text → Option A → GateDecision) where
    unfoldable decided : Option IdValue → RelayMode → GateDecision → Outcome → IdRewriter → Outcome
    unfolding by_mode refused
    decided id mode decision sent ids =
        if decision.allowed then sent else by_mode mode (refused id decision.reason ids) sent

    unfoldable gated : Message A → Shared → Outcome → Option Text → Outcome
    unfolding decided
    gated msg shared sent (some why) =
        by_mode shared.mode
          (refused msg.id (codes "tool blocked by agentguard: " ++ why) shared.ids) sent
    gated msg shared sent none =
        decided msg.id shared.mode (decide (unwrap_or msg.tool_name []) msg.arguments) sent
          shared.ids

    unfoldable handle_tools_call : Message A → Shared → Outcome → Outcome
    unfolding gated
    handle_tools_call msg shared sent =
        if shared.quarantined
        then refused msg.id
            (codes "session quarantined: "
              ++ unwrap_or shared.quarantine_reason (codes "session quarantined"))
            shared.ids
        else gated msg shared sent (shared.blocked_tool_reason (unwrap_or msg.tool_name []))

    abbrev lacks_method : Option Text → Bool
    lacks_method none = true
    lacks_method (some m) = false

    abbrev is_response : Message A → Bool
    is_response msg = lacks_method msg.method && (msg.has_result || msg.has_error)

    unfoldable handle_message : Line → Message A → Shared → Moment → Outcome
    unfolding handle_tools_call forward_with_proxied_id
    handle_message line msg shared at =
        let span = top_level_id_span line in
        if is_method msg.method (codes "tools/call")
        then handle_tools_call msg shared
            (forward_with_proxied_id line span (id_or_null msg.id) false at shared.ids)
        else if is_response msg
        then forwarded line shared.ids
        else forward_with_proxied_id line span (id_or_null msg.id)
            (is_method msg.method (codes "tools/list")) at shared.ids

    unfoldable handle_parsed : Line → Result Text (Message A) → Shared → Moment → Outcome
    unfolding handle_message
    handle_parsed line (err e) shared at =
        failed (codes "non-JSON line from client (" ++ e ++ codes "): " ++ p.truncate_for_log line)
          shared.ids
    handle_parsed line (ok msg) shared at =
        if is_ambiguous (top_level_id_span line)
        then failed (ambiguous_line line) shared.ids
        else handle_message line msg shared at

    unfoldable pub handle_client_line :
        (Line → Result Text (Message A)) → Line → Shared → Moment → Outcome
    unfolding handle_parsed
    handle_client_line parse line shared at = handle_parsed line (parse line) shared at
