-- ===== src/Audit/Chain/Append.antt =====
-- Appending to the log: what one more record leaves of a log that verifies and whose last line is
-- ended.
use apohara_agentguard.Prelude.{
  ℕ, ◌+◌, ◌<◌, Text, true, false, Option, none, some, List, [], ◌∷◌, ◌++◌, ◌≡◌, refl, sym, ap,
  subst, ◌∙◌, arith, length, All, eq_text_refl, trim, is_empty, byte_len,
}
use mathlib.Core.List.{append_assoc}
use apohara_agentguard.Prelude.Lines.{
  lines, ends_line, NoBreak, lines-append, lines-line_feed, ends_line-line_feed,
}
use apohara_agentguard.Config.{AuditConfig}
use apohara_agentguard.Contract.{and_then, unwrap_or}
use apohara_agentguard.Audit.Chain.Hex.{is_hex64-hex}
use apohara_agentguard.Audit.Chain.Links.{head_of, last_seq_of, collect, Reads, first_scan-Reads}
use apohara_agentguard.Audit.Chain.Clean.{
  verify_chain-Reads, verify_chain-Linked, verify_chain-state,
}
use apohara_agentguard.Audit.Chain.{
  ChainState, ChainHashInput, AuditRecord, RecordLine, Codec, Files, Writes, ChainVerifyReport,
  is_clean, Scan, first_scan, push_if, next_seq, valid_hex, input_of_record, parsed_of, chain_hash,
  sha256_hex, check_links, check_seq, check_record, check_line, check_lines, cross_check,
  check_state, usable, report_of, parsed, verify_chain, is_hex64, load_chain_state,
  state_or_rebuilt, rebuild_chain_state, last_sealed, line_of, append_line, write_state_atomic,
  write_line, seal_and_write, append_record,
}

module _ {V : Type 0} where
  -- What the chain relies on of its libraries: what is printed reads back, from one line that is not
  -- blank (`serde_json` escapes the line breaks of a string), and a digest is 32 bytes.
  pub record CodecLaws (codec : Codec V) : Type 0 where
    pub digest_length : (bytes : List ℕ) → length (codec.digest bytes) ≡ 32
    pub digest_bytes : (bytes : List ℕ) → All (λ b. b < 256) (codec.digest bytes)
    pub record_text : (l : RecordLine) → Text
    pub prints_record : (l : RecordLine) → codec.print_record l ≡ some (record_text l)
    pub reads_record : (l : RecordLine) → codec.parse_record (record_text l) ≡ some (parsed_of l)
    pub not_blank : (l : RecordLine) → is_empty (trim (record_text l)) ≡ false
    pub one_line : (l : RecordLine) → NoBreak (record_text l)
    pub state_text : (s : ChainState) → Text
    pub prints_state : (s : ChainState) → codec.print_state s ≡ some (state_text s)
    pub reads_state : (s : ChainState) → codec.parse_state (state_text s) ≡ some s

abbrev pub no_files : Files
no_files = record { log = none; state = none }

abbrev pub both_succeed : Writes
both_succeed = record { append = true; state = true }

module _ {V : Type 0} (codec : Codec V) where
  -- The log is empty or its last line is ended, and it verifies as clean with `n` chained records,
  -- against a usable state.
  pub record Verified (files : Files) (n : ℕ) : Type 0 where
    pub body : Text
    pub report : ChainVerifyReport
    pub st : ChainState
    pub log_eq : files.log ≡ some body
    pub ended : ends_line body ≡ true
    pub report_eq : verify_chain codec files ≡ some report
    pub clean : is_clean report ≡ true
    pub count : report.chained ≡ n
    pub state_eq : parsed codec files.state ≡ some (some st)
    pub st_usable : usable st ≡ true

  -- What the next append reads: the scan of the log so far, and the state at its end.
  record Ready (files : Files) (n : ℕ) : Type 0 where
    acc : List ChainHashInput
    reads : Reads codec (check_lines codec 1 first_scan (lines (unwrap_or files.log []))) acc
    ended : ends_line (unwrap_or files.log []) ≡ true
    count : length acc ≡ n
    seq : (load_chain_state codec files).last_seq ≡ last_seq_of codec acc
    head : (load_chain_state codec files).head_hash ≡ head_of codec acc
    hex : is_hex64 (load_chain_state codec files).head_hash ≡ true

  check_lines-append :
      (line : ℕ) (s : Scan) (body : List Text) (text : Text)
      → check_lines codec line s (body ++ text ∷ [])
        ≡ check_line codec (line + length body) (check_lines codec line s body) text
  unfolding check_lines
  check_lines-append line s [] text = ap (λ n. check_line codec n s text) (omega arith)
  check_lines-append line s (t ∷ body) text =
      check_lines-append (line + 1) (check_line codec line s t) body text
      ∙ ap
          (λ n.
            check_line codec n (check_lines codec (line + 1) (check_line codec line s t) body) text)
          (omega arith)

  -- A well-linked record passes every test of its line.
  check_line_linked :
      (line : ℕ) (s : Scan) (text : Text) (i : ChainHashInput)
      → is_empty (trim text) ≡ false
      → codec.parse_record text ≡ some (parsed_of (line_of i (chain_hash codec i)))
      → i.seq ≡ s.expected_seq
      → i.prev ≡ s.prev_hash
      → is_hex64 i.prev ≡ true
      → is_hex64 (chain_hash codec i) ≡ true
      → check_line codec line s text ≡ record s {
        chained = s.chained + 1;
        expected_seq = next_seq i.seq;
        prev_hash = chain_hash codec i;
        seen_v2 = true;
        tail = some (i.seq, chain_hash codec i);
      }
  unfolding check_line check_record check_seq check_links push_if valid_hex input_of_record
  check_line_linked line s text i b p q l hp hh =
      rw (b, p, hp, hh, q, l)
        (ground (arith, eq_text_refl s.prev_hash, eq_text_refl (chain_hash codec i)))

  -- The report on a scan without defects that ends where the state says.
  report_of_clean :
      (s : Scan) (st : ChainState)
      → s.defects ≡ []
      → s.tail ≡ some (st.last_seq, st.head_hash)
      → usable st ≡ true
      → is_clean (report_of s (some (some st))) ≡ true
  unfolding is_clean report_of check_state cross_check
  report_of_clean s st d t u = rw (d, u, t) (ground (arith, eq_text_refl st.head_hash))

  module _ (laws : CodecLaws codec) where
    abbrev sealed_state : ChainHashInput → ChainState
    sealed_state i = record { version = 1; last_seq = i.seq; head_hash = chain_hash codec i }

    is_hex64-chain_hash : (i : ChainHashInput) → is_hex64 (chain_hash codec i) ≡ true
    unfolding chain_hash sha256_hex
    is_hex64-chain_hash i =
        is_hex64-hex (codec.digest (codec.canonical i)) (laws.digest_length (codec.canonical i))
          (laws.digest_bytes (codec.canonical i))

    abbrev text_of : ChainHashInput → Text
    text_of i = laws.record_text (line_of i (chain_hash codec i))

    seal_and_write-eq :
        (files : Files) (i : ChainHashInput)
        → seal_and_write codec both_succeed files i ≡ record {
          log = some (unwrap_or files.log [] ++ (text_of i ++ b'\n' ∷ []));
          state = some (laws.state_text (sealed_state i));
        }
    unfolding seal_and_write write_line append_line write_state_atomic
    seal_and_write-eq files i =
        rw (laws.prints_record (line_of i (chain_hash codec i)), laws.prints_state (sealed_state i))

    -- The lines of the log with one record more
    lines-text_of :
        (body : Text) (i : ChainHashInput)
        → ends_line body ≡ true
        → lines (body ++ (text_of i ++ b'\n' ∷ [])) ≡ lines body ++ text_of i ∷ []
    lines-text_of body i h =
        lines-append body (text_of i ++ b'\n' ∷ []) h
        ∙ ap (λ ls. lines body ++ ls)
            (lines-line_feed (text_of i) (laws.one_line (line_of i (chain_hash codec i))))

    ends_line-text_of :
        (body : Text) (i : ChainHashInput) → ends_line (body ++ (text_of i ++ b'\n' ∷ [])) ≡ true
    ends_line-text_of body i =
        ap ends_line (sym (append_assoc body (text_of i) (b'\n' ∷ [])))
        ∙ ends_line-line_feed (body ++ text_of i)

    seal_and_write-Verified :
        (files : Files) (n : ℕ) (i : ChainHashInput)
        → Ready files n
        → i.seq ≡ next_seq (load_chain_state codec files).last_seq
        → i.prev ≡ (load_chain_state codec files).head_hash
        → Verified (seal_and_write codec both_succeed files i) (n + 1)
    unfolding verify_chain report_of
    seal_and_write-Verified files n i r q p =
        let body : Text = unwrap_or files.log [] in
        let appended : Text = body ++ (text_of i ++ b'\n' ∷ []) in
        let scanned =
          ap (check_lines codec 1 first_scan) (lines-text_of body i r.ended)
          ∙ check_lines-append 1 first_scan (lines body) (text_of i)
          ∙ check_line_linked (1 + length (lines body))
              (check_lines codec 1 first_scan (lines body)) (text_of i) i
              (laws.not_blank (line_of i (chain_hash codec i)))
              (laws.reads_record (line_of i (chain_hash codec i)))
              (q ∙ ap next_seq r.seq ∙ sym r.reads.expected) (p ∙ r.head ∙ sym r.reads.prev)
              (ap is_hex64 p ∙ r.hex) (is_hex64-chain_hash i) in
        let after : Scan = check_lines codec 1 first_scan (lines appended) in
        rw (seal_and_write-eq files i) (record {
          body = appended;
          report = report_of after (some (some (sealed_state i)));
          st = sealed_state i;
          log_eq = refl;
          ended = ends_line-text_of body i;
          report_eq = rw (laws.reads_state (sealed_state i));
          clean =
              report_of_clean after (sealed_state i)
                (ap (λ s. s.defects) scanned ∙ r.reads.no_defect) (ap (λ s. s.tail) scanned)
                (is_hex64-chain_hash i);
          count = ap (λ s. s.chained) scanned ∙ omega (arith, r.reads.count, r.count);
          state_eq = rw (laws.reads_state (sealed_state i));
          st_usable = is_hex64-chain_hash i;
        })

    load_chain_state-eq :
        (files : Files) (st : ChainState)
        → parsed codec files.state ≡ some (some st)
        → usable st ≡ true
        → load_chain_state codec files ≡ st
    unfolding load_chain_state state_or_rebuilt
    load_chain_state-eq files st p u = from_text files.state p
      where
        from_text :
            (text : Option Text)
            → parsed codec text ≡ some (some st)
            → state_or_rebuilt codec files.log (and_then text codec.parse_state) ≡ st
        from_text none p = cc
        from_text (some text) p =
            let e : codec.parse_state text ≡ some st = ground arith in rw (e, u)

    Verified-Ready : (files : Files) (n : ℕ) → Verified files n → Ready files n
    Verified-Ready files n v =
        let reads = verify_chain-Reads codec files v.body v.report v.log_eq v.report_eq v.clean in
        let ends =
          verify_chain-state codec files v.body v.report v.st v.log_eq v.report_eq v.clean
            v.state_eq v.st_usable in
        let loaded = load_chain_state-eq files v.st v.state_eq v.st_usable in
        record {
          acc = collect codec [] (lines v.body);
          reads =
              subst
                (λ b.
                  Reads codec (check_lines codec 1 first_scan (lines b))
                    (collect codec [] (lines v.body)))
                (ap (λ l. unwrap_or l []) (sym v.log_eq)) reads;
          ended = ap (λ l. ends_line (unwrap_or l [])) v.log_eq ∙ v.ended;
          count =
              sym (verify_chain-Linked codec files v.body v.report v.log_eq v.report_eq v.clean).1
              ∙ v.count;
          seq = ap (λ s. s.last_seq) loaded ∙ ends.0;
          head = ap (λ s. s.head_hash) loaded ∙ ends.1;
          hex = ap (λ s. is_hex64 s.head_hash) loaded ∙ ground (arith, v.st_usable);
        }

    no_files-Ready : Ready no_files 0
    unfolding check_lines load_chain_state state_or_rebuilt rebuild_chain_state last_sealed is_hex64
        byte_len lines ends_line
    no_files-Ready = record {
      acc = [];
      reads = first_scan-Reads codec;
      ended = refl;
      count = refl;
      seq = refl;
      head = refl;
      hex = refl;
    }

    module _ (redact_secrets : Text → Text) (cfg : AuditConfig) (rec : AuditRecord) (path : Text)
        (enabled : cfg.enabled ≡ true) (at_path : cfg.path ≡ some path) where
      append_record-Ready :
          (files : Files) (n : ℕ)
          → Ready files n
          → Verified (append_record codec redact_secrets both_succeed cfg rec files) (n + 1)
      unfolding append_record
      append_record-Ready files n r =
          rw (enabled, at_path) (seal_and_write-Verified files n _ r refl refl)

      -- Under the laws of the codec, an enabled append whose two writes succeed, to a log that is
      -- empty or ends with a line feed and that verifies as clean with n chained records against a
      -- usable state, leaves such a log with n + 1 chained records.
      pub append_record-Verified :
          (files : Files) (n : ℕ)
          → Verified files n
          → Verified (append_record codec redact_secrets both_succeed cfg rec files) (n + 1)
      append_record-Verified files n v = append_record-Ready files n (Verified-Ready files n v)

      -- Under the laws of the codec, the first enabled append whose writes succeed, with no log and no state yet, makes a verified log of one record.
      pub append_record-Verified_first :
          Verified (append_record codec redact_secrets both_succeed cfg rec no_files) 1
      append_record-Verified_first = append_record-Ready no_files 0 no_files-Ready
