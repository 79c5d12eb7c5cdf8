-- ===== src/Audit/Chain.antt =====
-- src/audit/chain.rs and `record` of src/audit/mod.rs: the hash chain of the audit log.
pub mod Hex
pub mod Links
pub mod Clean
pub mod Append
pub mod Tamper
mod Tests
use apohara_agentguard.Prelude.{
  ℕ, ◌+◌, ◌-◌, ◌/◌, ◌%◌, ◌^◌, Text, codes, Bool, true, false, not, ◌&&◌, ◌||◌, Option, none, some,
  List, [], ◌∷◌, ◌++◌, all, is_nil, leb, ltb, ◌==◌, eq_text, trim, is_empty, byte_len, length,
  if◌then◌else◌,
}
use apohara_agentguard.Prelude.Cut.{cut}
use apohara_agentguard.Prelude.Lines.{lines}
use apohara_agentguard.Config.{AuditConfig}
use apohara_agentguard.Contract.{unwrap_or, and_then, or_else}

-- 64 zeros
abbrev pub genesis_hash : Text
genesis_hash = codes "0000000000000000000000000000000000000000000000000000000000000000"

abbrev pub chain_state_version : ℕ
chain_state_version = 1

abbrev pub max_command_bytes : ℕ
max_command_bytes = 512

pub record ChainState : Type 0 where
  pub version : ℕ
  pub last_seq : ℕ
  pub head_hash : Text

pub record ChainHashInput : Type 0 where
  pub seq : ℕ
  pub prev : Text
  pub timestamp : ℕ
  pub event : Text
  pub decision : Text
  pub rule_id : Option Text
  pub category : Option Text
  pub surface : Option Text
  pub command : Option Text
  pub policy_fingerprint : Option Text

pub record AuditRecord : Type 0 where
  pub timestamp : ℕ
  pub event : Text
  pub decision : Text
  pub rule_id : Option Text
  pub category : Option Text
  pub surface : Option Text
  pub command : Option Text
  pub policy_fingerprint : Option Text

pub record RecordLine : Type 0 where
  pub seq : ℕ
  pub prev : Text
  pub timestamp : ℕ
  pub event : Text
  pub decision : Text
  pub rule_id : Option Text
  pub category : Option Text
  pub surface : Option Text
  pub command : Option Text
  pub policy_fingerprint : Option Text
  pub hash : Text

pub record ParsedRecord : Type 0 where
  pub seq : Option ℕ
  pub prev : Option Text
  pub timestamp : ℕ
  pub event : Text
  pub decision : Text
  pub rule_id : Option Text
  pub category : Option Text
  pub surface : Option Text
  pub command : Option Text
  pub policy_fingerprint : Option Text
  pub hash : Option Text

-- What the code calls: `serde_json`, with `Value` seen through the two fields that are read, and
-- `Sha256::digest`.
pub record Codec (V : Type 0) : Type 0 where
  pub canonical : ChainHashInput → List ℕ
  pub digest : List ℕ → List ℕ
  pub print_record : RecordLine → Option Text
  pub parse_record : Text → Option ParsedRecord
  pub print_state : ChainState → Option Text
  pub parse_state : Text → Option ChainState
  pub parse_value : Text → Option V
  pub seq_u64 : V → Option ℕ
  pub hash_str : V → Option Text

-- The texts of the log and of the state beside it; `none` for a file that is not there.
pub record Files : Type 0 where
  pub log : Option Text
  pub state : Option Text

-- Whether the writes of one call succeed; one that does not leaves its file as it was.
pub record Writes : Type 0 where
  pub append : Bool
  pub state : Bool

-- One digit of `{byte:02x}`
pub hex_digit : ℕ → ℕ
hex_digit n = if ltb n 10 then b'0' + n else b'a' + (n - 10)

pub hex : List ℕ → Text
unfolding hex_digit
hex [] = []
hex (b ∷ bs) = hex_digit (b / 16) ∷ hex_digit (b % 16) ∷ hex bs

pub is_ascii_hexdigit : ℕ → Bool
is_ascii_hexdigit c =
    (leb b'0' c && leb c b'9') || (leb b'a' c && leb c b'f') || (leb b'A' c && leb c b'F')

-- All the characters are ASCII, so their number is the length in bytes.
pub is_hex64 : Text → Bool
unfolding is_ascii_hexdigit
is_hex64 s = byte_len s == 64 && all is_ascii_hexdigit s

-- What `ParsedRecord` has of a printed line: the fields by name
abbrev pub parsed_of : RecordLine → ParsedRecord
parsed_of l = record {
  seq = some l.seq;
  prev = some l.prev;
  timestamp = l.timestamp;
  event = l.event;
  decision = l.decision;
  rule_id = l.rule_id;
  category = l.category;
  surface = l.surface;
  command = l.command;
  policy_fingerprint = l.policy_fingerprint;
  hash = some l.hash;
}

-- The defects of a report; the source formats each as a line of text.
pub data Defect : Type 0 where
  malformed_line : ℕ → Defect
  missing_seq missing_prev missing_hash : ℕ → Defect
  seq_gap : ℕ → ℕ → ℕ → Defect
  prev_mismatch : ℕ → Text → Text → Defect
  hash_mismatch : ℕ → Defect
  tail_truncation post_hoc_extension : ℕ → ℕ → Defect
  head_mismatch : ℕ → Text → Text → Defect

pub data Warning : Type 0 where
  leading_ignored : ℕ → Warning
  state_unreadable state_missing full_strip : Warning

pub record ChainVerifyReport : Type 0 where
  pub chained : ℕ
  pub legacy_unverified : ℕ
  pub defects : List Defect
  pub warnings : List Warning

unfoldable pub is_clean : ChainVerifyReport → Bool
is_clean r = is_nil r.defects

-- The variables of the loop of `verify_chain`.
pub record Scan : Type 0 where
  pub chained : ℕ
  pub legacy_unverified : ℕ
  pub defects : List Defect
  pub expected_seq : ℕ
  pub prev_hash : Text
  pub seen_v2 : Bool
  pub leading_unparseable : ℕ
  pub tail : Option (ℕ × Text)

abbrev pub first_scan : Scan
first_scan = record {
  chained = 0;
  legacy_unverified = 0;
  defects = [];
  expected_seq = 1;
  prev_hash = genesis_hash;
  seen_v2 = false;
  leading_unparseable = 0;
  tail = none;
}

pub push_defect : Scan → Defect → Scan
push_defect s d = record s { defects = s.defects ++ d ∷ [] }

pub push_if : Bool → Scan → Defect → Scan
unfolding push_defect
push_if b s d = if b then push_defect s d else s

-- `seq.wrapping_add(1)`
abbrev pub next_seq : ℕ → ℕ
next_seq n = (n + 1) % 2 ^ 64

-- `Option::filter` by `is_hex64`
pub valid_hex : Option Text → Option Text
unfolding is_hex64
valid_hex none = none
valid_hex (some h) = if is_hex64 h then some h else none

pub input_of_record : ℕ → Text → ParsedRecord → ChainHashInput
input_of_record seq prev r = record {
  seq = seq;
  prev = prev;
  timestamp = r.timestamp;
  event = r.event;
  decision = r.decision;
  rule_id = r.rule_id;
  category = r.category;
  surface = r.surface;
  command = r.command;
  policy_fingerprint = r.policy_fingerprint;
}

abbrev is_none : {A : Type 0} → Option A → Bool
is_none none = true
is_none (some a) = false

abbrev pub tail_or_genesis : Option (ℕ × Text) → ℕ × Text
tail_or_genesis none = (0, genesis_hash)
tail_or_genesis (some t) = t

-- The comparison of the state beside the log with the end of the log
pub cross_check : ChainState → ℕ × Text → List Defect
cross_check st (max_seq, head) =
    if ltb max_seq st.last_seq
    then tail_truncation st.last_seq max_seq ∷ []
    else if ltb st.last_seq max_seq
    then post_hoc_extension max_seq st.last_seq ∷ []
    else if not (eq_text st.head_hash head)
    then head_mismatch max_seq st.head_hash head ∷ []
    else []

abbrev pub usable : ChainState → Bool
usable st = st.version == chain_state_version && is_hex64 st.head_hash

pub bad_state : Scan → List Warning
bad_state s =
    if s.chained == 0 && ltb 0 s.legacy_unverified
    then state_unreadable ∷ full_strip ∷ []
    else state_unreadable ∷ []

-- The parsed state beside the log; outside `none` there is no file
pub check_state : Scan → Option (Option ChainState) → List Defect × List Warning
unfolding is_hex64 cross_check bad_state
check_state s none =
    if ltb 0 s.chained
    then ([], state_missing ∷ [])
    else if ltb 0 s.legacy_unverified
    then ([], full_strip ∷ [])
    else ([], [])
check_state s (some none) = ([], bad_state s)
check_state s (some (some st)) =
    if usable st then (cross_check st (tail_or_genesis s.tail), []) else ([], bad_state s)

pub report_of : Scan → Option (Option ChainState) → ChainVerifyReport
unfolding check_state
report_of s st =
    let (defects, warnings) = check_state s st in
    record {
      chained = s.chained;
      legacy_unverified = s.legacy_unverified;
      defects = s.defects ++ defects;
      warnings =
          (if ltb 0 s.leading_unparseable then leading_ignored s.leading_unparseable ∷ [] else [])
          ++ warnings;
    }

-- `truncate_bytes`
unfoldable pub truncate_bytes : Text → ℕ → Text
truncate_bytes s max = if leb (byte_len s) max then s else cut s max

-- The command field of the line; `redact_secrets` is an argument.
pub kept_command : (Text → Text) → Bool → Option Text → Option Text
unfolding truncate_bytes
kept_command redact_secrets true (some cmd) =
    some (truncate_bytes (redact_secrets cmd) max_command_bytes)
kept_command redact_secrets _ _ = none

abbrev input_of_audit : ℕ → Text → AuditRecord → Option Text → ChainHashInput
input_of_audit seq prev rec command = record {
  seq = seq;
  prev = prev;
  timestamp = rec.timestamp;
  event = rec.event;
  decision = rec.decision;
  rule_id = rec.rule_id;
  category = rec.category;
  surface = rec.surface;
  command = command;
  policy_fingerprint = rec.policy_fingerprint;
}

abbrev pub line_of : ChainHashInput → Text → RecordLine
line_of i hash = record {
  seq = i.seq;
  prev = i.prev;
  timestamp = i.timestamp;
  event = i.event;
  decision = i.decision;
  rule_id = i.rule_id;
  category = i.category;
  surface = i.surface;
  command = i.command;
  policy_fingerprint = i.policy_fingerprint;
  hash = hash;
}

-- `append_line`: the bytes behind what the log holds, in a file that it makes when there is none
pub append_line : Files → Text → Files
append_line files bytes = record files { log = some (unwrap_or files.log [] ++ bytes) }

-- `write_state_atomic`: the file is replaced whole, or it is left
pub write_state_atomic : Bool → Option Text → Files → Files
write_state_atomic true (some text) files = record files { state = some text }
write_state_atomic _ _ files = files

module _ {V : Type 0} (codec : Codec V) where
  unfoldable pub sha256_hex : List ℕ → Text
  unfolding hex
  sha256_hex bytes = hex (codec.digest bytes)

  unfoldable pub chain_hash : ChainHashInput → Text
  chain_hash input = sha256_hex (codec.canonical input)

  -- The links of a record that has a sequence number
  pub check_links : ℕ → Scan → ℕ → ParsedRecord → Option Text → Option Text → Scan
  unfolding push_defect push_if input_of_record chain_hash
  check_links line s seq rec none hash = push_defect s (missing_prev line)
  check_links line s seq rec (some prev) none = push_defect s (missing_hash line)
  check_links line s seq rec (some prev) (some hash) =
      let linked =
        push_if (not (eq_text prev s.prev_hash)) s (prev_mismatch line s.prev_hash prev) in
      let hashed =
        push_if (not (eq_text (chain_hash (input_of_record seq prev rec)) hash)) linked
          (hash_mismatch line) in
      record hashed { prev_hash = hash; tail = some (seq, hash) }

  pub check_seq : ℕ → Scan → ParsedRecord → Option ℕ → Scan
  unfolding push_defect push_if valid_hex check_links
  check_seq line s rec none = push_defect s (missing_seq line)
  check_seq line s rec (some seq) =
      let counted = push_if (not (seq == s.expected_seq)) s (seq_gap line s.expected_seq seq) in
      check_links line (record counted { expected_seq = next_seq seq }) seq rec (valid_hex rec.prev)
        (valid_hex rec.hash)

  pub check_record : ℕ → Scan → Option ParsedRecord → Scan
  unfolding push_defect check_seq
  check_record line s none =
      if s.seen_v2
      then push_defect s (malformed_line line)
      else record s { leading_unparseable = s.leading_unparseable + 1 }
  check_record line s (some rec) =
      if is_none rec.seq && is_none rec.hash
      then record s { legacy_unverified = s.legacy_unverified + 1 }
      else check_seq line (record s { seen_v2 = true; chained = s.chained + 1 }) rec rec.seq

  pub check_line : ℕ → Scan → Text → Scan
  unfolding check_record
  check_line line s text =
      if is_empty (trim text) then s else check_record line s (codec.parse_record text)

  pub check_lines : ℕ → Scan → List Text → Scan
  unfolding check_line
  check_lines line s [] = s
  check_lines line s (text ∷ rest) = check_lines (line + 1) (check_line line s text) rest

  abbrev pub parsed : Option Text → Option (Option ChainState)
  parsed none = none
  parsed (some text) = some (codec.parse_state text)

  -- `verify_chain`; `none` for a log that cannot be read
  pub verify_chain : Files → Option ChainVerifyReport
  unfolding lines check_lines report_of
  verify_chain files =
      and_then files.log
        (λ body. some (report_of (check_lines 1 first_scan (lines body)) (parsed files.state)))

  -- The state that is taken from the last line with a sequence number and a hash
  pub sealed : Option V → Option (ℕ × Text)
  unfolding is_hex64
  sealed v = and_then v (λ v. and_then (codec.seq_u64 v) (λ seq.
      and_then (codec.hash_str v) (λ hash. if is_hex64 hash then some (seq, hash) else none)))

  pub last_sealed : Option (ℕ × Text) → List Text → Option (ℕ × Text)
  unfolding sealed
  last_sealed tail [] = tail
  last_sealed tail (line ∷ rest) = last_sealed (or_else (sealed (codec.parse_value line)) tail) rest

  pub rebuild_chain_state : Option Text → ChainState
  unfolding lines last_sealed
  rebuild_chain_state log =
      let (last_seq, head_hash) = tail_or_genesis (last_sealed none (lines (unwrap_or log []))) in
      record { version = chain_state_version; last_seq = last_seq; head_hash = head_hash }

  pub state_or_rebuilt : Option Text → Option ChainState → ChainState
  unfolding rebuild_chain_state is_hex64
  state_or_rebuilt log none = rebuild_chain_state log
  state_or_rebuilt log (some st) = if usable st then st else rebuild_chain_state log

  pub load_chain_state : Files → ChainState
  unfolding state_or_rebuilt
  load_chain_state files = state_or_rebuilt files.log (and_then files.state codec.parse_state)

  pub write_line : Writes → Files → ChainHashInput → Text → Option Text → Files
  unfolding append_line write_state_atomic
  write_line writes files input hash none = files
  write_line writes files input hash (some line) =
      if not writes.append
      then files
      else write_state_atomic writes.state
          (codec.print_state
            (record { version = chain_state_version; last_seq = input.seq; head_hash = hash }))
          (append_line files (line ++ b'\n' ∷ []))

  pub seal_and_write : Writes → Files → ChainHashInput → Files
  unfolding chain_hash write_line
  seal_and_write writes files input =
      let hash = chain_hash input in
      write_line writes files input hash (codec.print_record (line_of input hash))

  -- `record`: one line more, with its line feed, chained to the state
  pub append_record : (Text → Text) → Writes → AuditConfig → AuditRecord → Files → Files
  unfolding load_chain_state seal_and_write kept_command
  append_record redact_secrets writes cfg rec files =
      if not cfg.enabled || is_none cfg.path
      then files
      else let state = load_chain_state files in
        seal_and_write writes files (
          input_of_audit (next_seq state.last_seq) state.head_hash rec
            (kept_command redact_secrets cfg.include_command rec.command))
