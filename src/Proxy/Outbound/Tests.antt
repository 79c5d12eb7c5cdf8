-- ===== src/Proxy/Outbound/Tests.antt =====
-- Runs of src/proxy/relay/outbound.rs.
use apohara_agentguard.Prelude.{
  ◌≡◌, refl, codes, Text, Bool, true, false, Option, none, some, List, [], ◌∷◌, ok, err, Result,
}
use apohara_agentguard.Proxy.Spoof.{Draw, new_rewriter}
use apohara_agentguard.Proxy.Gate.{GateDecision}
use apohara_agentguard.Proxy.Outbound.{
  RelayMode, enforce, filter_only, value, Message, Shared, Moment, Printers, Line,
  handle_client_line, is_method,
}
use apohara_agentguard.Proxy.Outbound.Held.{call_denied, Held, handle_client_line-Held}

abbrev call_line : Line
call_line = codes "{\"method\":\"tools/call\",\"id\":7}"

abbrev call : Message Text
call = record {
  id = some (value (codes "7"));
  method = some (codes "tools/call");
  has_result = false;
  has_error = false;
  tool_name = some (codes "shell");
  arguments = some (codes "rm -rf ~");
}

abbrev reads_call : Line → Result Text (Message Text)
reads_call line = ok call

abbrev denies : Text → Option Text → GateDecision
denies tool args = record { allowed = false; reason = codes "no" }

abbrev printers : Printers
printers = record {
  blocked_response = λ id why. why;
  overloaded_response = λ id. codes "overloaded";
  truncate_for_log = λ line. line;
}

abbrev session : RelayMode → Shared
session mode = record {
  quarantined = false;
  quarantine_reason = none;
  blocked_tool_reason = λ tool. none;
  mode = mode;
  ids = new_rewriter;
}

abbrev moment : Moment
moment = record { now = 1; draws = (ok (1 ∷ []), ok (2 ∷ []), ok (3 ∷ [])) }

answers_denied :
    (handle_client_line printers denies reads_call call_line (session enforce) moment).tx_out
    ≡ codes "no" ∷ []
unfolding handle_client_line apohara_agentguard.Proxy.Span.top_level_id_span
    apohara_agentguard.Proxy.Span.skip_string apohara_agentguard.Prelude.eq_text
answers_denied = refl

forwards_denied :
    (handle_client_line printers denies reads_call call_line (session filter_only) moment).tx_in
    ≡ codes "{\"method\":\"tools/call\",\"id\":\"agp-01\"}" ∷ []
unfolding handle_client_line apohara_agentguard.Proxy.Span.top_level_id_span
    apohara_agentguard.Proxy.Span.skip_string apohara_agentguard.Prelude.eq_text
    apohara_agentguard.Proxy.Spoof.register apohara_agentguard.Proxy.Spoof.get
    apohara_agentguard.Proxy.Span.splice_span apohara_agentguard.Proxy.Spoof.quote_proxy_id
    apohara_agentguard.Proxy.Spoof.minted_id
forwards_denied = refl

calls_tool : is_method call.method (codes "tools/call") ≡ true
unfolding apohara_agentguard.Prelude.eq_text
calls_tool = refl

handle_client_line-Held_example :
    Held printers denies
      (handle_client_line printers denies reads_call call_line (session enforce) moment)
      (session enforce).ids
handle_client_line-Held_example =
    handle_client_line-Held printers denies reads_call call_line call (session enforce) moment refl
      calls_tool (call_denied refl refl)
