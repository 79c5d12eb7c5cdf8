-- ===== src/Audit/Chain/Tests.antt =====
-- The chain under a small codec: numbers as they are, texts with their length in front, all moved up
-- by 200, away from the line breaks, and a digest of 32 equal bytes.
use apohara_agentguard.Prelude.{
  ℕ, zero, suc, ◌+◌, ◌-◌, ◌%◌, ◌<◌, Text, codes, true, false, Option, none, some, List, [], ◌∷◌,
  ◌++◌, ◌≡◌, refl, sym, ap, subst, ◌∙◌, arith, inl, inr, length, map, reverse, All, ◌==◌, is_empty,
  trim, trim_start, trim_end, is_whitespace, if◌then◌else◌, Bool-cases,
}
use apohara_agentguard.Prelude.Lines.{lines, NoBreak}
use mathlib.Core.List.{reverse-append, reverse-cons}
use apohara_agentguard.Config.{AuditConfig}
use apohara_agentguard.Contract.{and_then, unwrap_or}
use apohara_agentguard.Audit.Chain.Links.{Linked, collect, last_seq_of, head_of}
use apohara_agentguard.Audit.Chain.Clean.{verify_chain-Linked, verify_chain-state}
use apohara_agentguard.Audit.Chain.Append.{
  CodecLaws, Verified, no_files, both_succeed, append_record-Verified, append_record-Verified_first,
}
use apohara_agentguard.Audit.Chain.Tamper.{NoCollision, verify_chain_tamper}
use apohara_agentguard.Audit.Chain.{
  ChainState, ChainHashInput, AuditRecord, RecordLine, ParsedRecord, Codec, Files, parsed_of,
  append_record, ChainVerifyReport, is_clean, verify_chain,
}

put_text : Text → Text → Text
put_text t rest = length t ∷ (t ++ rest)

put_option : Option Text → Text → Text
unfolding put_text
put_option none rest = 0 ∷ rest
put_option (some t) rest = 1 ∷ put_text t rest

put_fields : RecordLine → Text
unfolding put_text put_option
put_fields l =
    123
    ∷ l.seq
    ∷ put_text l.prev (
        l.timestamp
        ∷ put_text l.event (
            put_text l.decision (
              put_option l.rule_id (
                put_option l.category (
                  put_option l.surface (
                    put_option l.command
                      (put_option l.policy_fingerprint (put_text l.hash []))))))))

up : ℕ → ℕ
up c = 200 + c

down : ℕ → ℕ
down c = c - 200

put_line : RecordLine → Text
unfolding put_fields up
put_line l = map up (put_fields l)

cons_first : ℕ → Option (Text × Text) → Option (Text × Text)
cons_first c none = none
cons_first c (some (t, rest)) = some (c ∷ t, rest)

take_text : ℕ → Text → Option (Text × Text)
unfolding cons_first
take_text zero s = some ([], s)
take_text (suc n) [] = none
take_text (suc n) (c ∷ s) = cons_first c (take_text n s)

get_text : {A : Type 0} → Text → (Text → Text → Option A) → Option A
unfolding take_text
get_text [] k = none
get_text (n ∷ s) k = and_then (take_text n s) (λ r. k r.0 r.1)

get_option : {A : Type 0} → Text → (Option Text → Text → Option A) → Option A
unfolding get_text
get_option [] k = none
get_option (c ∷ s) k = if c == 0 then k none s else get_text s (λ t. k (some t))

get_number : {A : Type 0} → Text → (ℕ → Text → Option A) → Option A
get_number [] k = none
get_number (n ∷ s) k = k n s

get_fields : Text → Option ParsedRecord
unfolding get_text get_option get_number
get_fields s = get_number s (λ brace s. get_number s (λ seq s. get_text s (λ prev s.
    get_number s (λ timestamp s. get_text s (λ event s. get_text s (λ decision s.
      get_option s (λ rule_id s. get_option s (λ category s. get_option s (λ surface s.
        get_option s (λ command s. get_option s (λ policy_fingerprint s. get_text s (λ hash s.
          some (record {
            seq = some seq;
            prev = some prev;
            timestamp = timestamp;
            event = event;
            decision = decision;
            rule_id = rule_id;
            category = category;
            surface = surface;
            command = command;
            policy_fingerprint = policy_fingerprint;
            hash = some hash;
          })))))))))))))

get_line : Text → Option ParsedRecord
unfolding get_fields down
get_line s = get_fields (map down s)

take_text-append : (t rest : Text) → take_text (length t) (t ++ rest) ≡ some (t, rest)
unfolding take_text cons_first
take_text-append [] rest = refl
take_text-append (c ∷ t) rest = ground (arith, take_text-append t rest)

get_text-put :
    {A : Type 0} (t rest : Text) (k : Text → Text → Option A)
    → get_text (put_text t rest) k ≡ k t rest
unfolding get_text put_text
get_text-put t rest k = rw (take_text-append t rest)

get_option-put :
    {A : Type 0} (t : Option Text) (rest : Text) (k : Option Text → Text → Option A)
    → get_option (put_option t rest) k ≡ k t rest
unfolding get_option put_option
get_option-put none rest k = refl
get_option-put (some t) rest k = get_text-put t rest (λ t. k (some t))

get_fields-put : (l : RecordLine) → get_fields (put_fields l) ≡ some (parsed_of l)
unfolding get_fields put_fields get_number
get_fields-put l = simp (get_text-put, get_option-put)

down-up : (s : Text) → map down (map up s) ≡ s
unfolding down up
down-up [] = refl
down-up (c ∷ s) = let same : 200 + c - 200 ≡ c = omega arith in rw (same, down-up s)

get_line-put : (l : RecordLine) → get_line (put_line l) ≡ some (parsed_of l)
unfolding get_line put_line
get_line-put l = ap get_fields (down-up (put_fields l)) ∙ get_fields-put l

NoBreak-up : (s : Text) → NoBreak (map up s)
unfolding up
NoBreak-up [] = tt
NoBreak-up (c ∷ s) = ((omega arith, omega arith), NoBreak-up s)

repeat : ℕ → ℕ → List ℕ
repeat zero b = []
repeat (suc n) b = b ∷ repeat n b

length-repeat : (n b : ℕ) → length (repeat n b) ≡ n
unfolding repeat
length-repeat zero b = refl
length-repeat (suc n) b = omega (arith, length-repeat n b)

All-repeat : (n b : ℕ) → b < 256 → All (λ x. x < 256) (repeat n b)
unfolding repeat
All-repeat zero b h = tt
All-repeat (suc n) b h = (h, All-repeat n b h)

sum : List ℕ → ℕ
sum [] = 0
sum (b ∷ bs) = b + sum bs

get_state : Text → Option ChainState
get_state (version ∷ last_seq ∷ head_hash) =
    some (record { version = version; last_seq = last_seq; head_hash = head_hash })
get_state short = none

abbrev small_codec : Codec RecordLine
small_codec = record {
  canonical = λ i. i.seq ∷ i.timestamp ∷ i.prev;
  digest = λ bytes. repeat 32 (sum bytes % 256);
  print_record = λ l. some (put_line l);
  parse_record = get_line;
  print_state = λ s. some (s.version ∷ s.last_seq ∷ s.head_hash);
  parse_state = get_state;
  parse_value = λ line. none;
  seq_u64 = λ l. some l.seq;
  hash_str = λ l. some l.hash;
}

trim_start-snoc : (s : Text) → (kept : Text) × (trim_start (s ++ 323 ∷ []) ≡ kept ++ 323 ∷ [])
unfolding trim_start is_whitespace
trim_start-snoc [] = ([], refl)
trim_start-snoc (c ∷ s) = elim (Bool-cases (is_whitespace c)) [
  | inl e ↦ ((trim_start-snoc s).0, rw e (trim_start-snoc s).1)
  | inr e ↦ (c ∷ s, rw e)
]

trim_brace : (s : Text) → is_empty (trim (323 ∷ s)) ≡ false
unfolding trim trim_end trim_start is_whitespace
trim_brace s =
    let (kept, e) = trim_start-snoc (reverse s) in
    ap (λ t. is_empty (reverse (trim_start t))) (reverse-cons 323 s)
    ∙ ap (λ t. is_empty (reverse t)) e
    ∙ ap is_empty (reverse-append kept (323 ∷ []))

small_codec-CodecLaws : CodecLaws small_codec
small_codec-CodecLaws = record {
  digest_length = λ bytes. length-repeat 32 (sum bytes % 256);
  digest_bytes = λ bytes. All-repeat 32 (sum bytes % 256) (omega arith);
  record_text = put_line;
  prints_record = λ l. refl;
  reads_record = get_line-put;
  not_blank = λ l. unfold put_line in unfold put_fields in unfold up in trim_brace _;
  one_line = λ l. unfold put_line in NoBreak-up (put_fields l);
  state_text = λ s. s.version ∷ s.last_seq ∷ s.head_hash;
  prints_state = λ s. refl;
  reads_state = λ s. unfold get_state in refl;
}

abbrev audit_on : AuditConfig
audit_on = record { enabled = true; path = some (codes "audit.jsonl"); include_command = false }

abbrev decision : AuditRecord
decision = record {
  timestamp = 7;
  event = codes "gate";
  decision = codes "block";
  rule_id = none;
  category = none;
  surface = none;
  command = none;
  policy_fingerprint = none;
}

abbrev as_it_is : Text → Text
as_it_is t = t

abbrev one_record : Files
one_record = append_record small_codec as_it_is both_succeed audit_on decision no_files

one_record-Verified : Verified small_codec one_record 1
one_record-Verified =
    append_record-Verified_first small_codec small_codec-CodecLaws as_it_is audit_on decision
      (codes "audit.jsonl") refl refl

append_record-Verified_example :
    Verified small_codec
      (append_record small_codec as_it_is both_succeed audit_on decision one_record)
      2
append_record-Verified_example =
    append_record-Verified small_codec small_codec-CodecLaws as_it_is audit_on decision
      (codes "audit.jsonl") refl refl one_record 1 one_record-Verified

abbrev v : Verified small_codec one_record 1
v = one_record-Verified

verify_chain-Linked_example :
    Linked small_codec (collect small_codec [] (lines v.body))
    × (v.report.chained ≡ length (collect small_codec [] (lines v.body)))
verify_chain-Linked_example =
    verify_chain-Linked small_codec one_record v.body v.report v.log_eq v.report_eq v.clean

verify_chain-state_example :
    (v.st.last_seq ≡ last_seq_of small_codec (collect small_codec [] (lines v.body)))
    × (v.st.head_hash ≡ head_of small_codec (collect small_codec [] (lines v.body)))
verify_chain-state_example =
    verify_chain-state small_codec one_record v.body v.report v.st v.log_eq v.report_eq v.clean
      v.state_eq v.st_usable

abbrev one_body : Text
one_body = unwrap_or one_record.log []

one_log : one_record.log ≡ some one_body
unfolding append_record
one_log = refl

-- The same record behind a blank line
abbrev blank_first : Files
blank_first = record one_record { log = some (b'\n' ∷ one_body) }

abbrev one_clean : ChainVerifyReport
one_clean = record { chained = 1; legacy_unverified = 0; defects = []; warnings = [] }

clean_one : is_clean one_clean ≡ true
unfolding is_clean
clean_one = refl

blank_first_report : verify_chain small_codec blank_first ≡ some one_clean
unfolding verify_chain append_record put_line apohara_agentguard.Audit.Chain.sha256_hex repeat sum
    trim get_line apohara_agentguard.Prelude.byte_len apohara_agentguard.Prelude.eq_text get_state
blank_first_report = refl

NoCollision-one : (xs : List ChainHashInput) → length xs ≡ 1 → NoCollision small_codec xs xs
NoCollision-one [] h = tt
NoCollision-one (x ∷ []) h = ((inl refl, tt), tt)
NoCollision-one (x ∷ y ∷ xs) h = ground arith

one_record_report : verify_chain small_codec one_record ≡ some one_clean
unfolding verify_chain append_record put_line apohara_agentguard.Audit.Chain.sha256_hex repeat sum
    trim get_line apohara_agentguard.Prelude.byte_len apohara_agentguard.Prelude.eq_text get_state
one_record_report = refl

same_links :
    (body : Text)
    → collect small_codec [] (lines (b'\n' ∷ body)) ≡ collect small_codec [] (lines body)
unfolding lines trim
same_links body = refl

one_link : length (collect small_codec [] (lines one_body)) ≡ 1
one_link =
    sym
      (verify_chain-Linked small_codec one_record one_body one_clean one_log one_record_report
        clean_one).1

no_collision :
    NoCollision small_codec
      (collect small_codec [] (lines one_body))
      (collect small_codec [] (lines (b'\n' ∷ one_body)))
no_collision =
    subst (NoCollision small_codec (collect small_codec [] (lines one_body)))
      (sym (same_links one_body))
      (NoCollision-one (collect small_codec [] (lines one_body)) one_link)

verify_chain_tamper_example :
    collect small_codec [] (lines one_body) ≡ collect small_codec [] (lines (b'\n' ∷ one_body))
verify_chain_tamper_example =
    verify_chain_tamper small_codec one_record blank_first one_body (b'\n' ∷ one_body) one_clean
      one_clean v.st one_log refl one_record_report blank_first_report clean_one clean_one
      v.state_eq v.state_eq v.st_usable (omega arith) (omega arith) no_collision
