-- ===== src/Audit/Chain/Clean.antt =====
-- What a clean report of `verify_chain` says of the log and of the state beside it.
use apohara_agentguard.Prelude.{
  ℕ, Text, true, Option, some, List, [], ◌∷◌, ◌++◌, ◌≡◌, refl, sym, ap, ◌∙◌, arith, length, is_nil,
  eq_text_iff,
}
use apohara_agentguard.Prelude.Lines.{lines}
use apohara_agentguard.Audit.Chain.{
  ChainState, Codec, Files, Defect, ChainVerifyReport, is_clean, Scan, first_scan, check_lines,
  tail_or_genesis, cross_check, usable, report_of, parsed, check_state, verify_chain,
}
use apohara_agentguard.Audit.Chain.Links.{
  head_of, last_seq_of, Linked, collect, Reads, first_scan-Reads, check_lines-Reads,
}

-- The comparison with the state has no defect exactly where it finds what it says.
cross_check-nil :
    (st : ChainState) (t : ℕ × Text)
    → cross_check st t ≡ []
    → (st.last_seq ≡ t.0) × (st.head_hash ≡ t.1)
unfolding cross_check
cross_check-nil st (q, h) e = ground (arith, eq_text_iff st.head_hash h)

module _ {V : Type 0} (codec : Codec V) where
  append_nil-left : (xs ys : List Defect) → xs ++ ys ≡ [] → xs ≡ []
  append_nil-left [] ys h = refl
  append_nil-left (x ∷ xs) ys h = cc

  append_nil-right : (xs ys : List Defect) → xs ++ ys ≡ [] → ys ≡ []
  append_nil-right [] ys h = h
  append_nil-right (x ∷ xs) ys h = cc

  is_nil-eq : (xs : List Defect) → is_nil xs ≡ true → xs ≡ []
  is_nil-eq [] h = refl
  is_nil-eq (x ∷ xs) h = cc

  -- A clean report: neither the scan nor the state beside the log has a defect.
  report_of-clean :
      (s : Scan) (st : Option (Option ChainState))
      → is_clean (report_of s st) ≡ true
      → (s.defects ≡ []) × ((check_state s st).0 ≡ [])
  unfolding report_of is_clean
  report_of-clean s st h =
      let e = is_nil-eq (s.defects ++ (check_state s st).0) h in
      (
        append_nil-left s.defects (check_state s st).0 e,
        append_nil-right s.defects (check_state s st).0 e,
      )

  module _ (files : Files) (body : Text) (r : ChainVerifyReport) where
    verify_chain-report :
        files.log ≡ some body
        → verify_chain codec files ≡ some r
        → r ≡ report_of (check_lines codec 1 first_scan (lines body)) (parsed codec files.state)
    unfolding verify_chain
    verify_chain-report l v = cc

    pub verify_chain-Reads :
        files.log ≡ some body
        → verify_chain codec files ≡ some r
        → is_clean r ≡ true
        → Reads codec (check_lines codec 1 first_scan (lines body)) (collect codec [] (lines body))
    verify_chain-Reads l v c =
        check_lines-Reads codec 1 first_scan (lines body) [] (first_scan-Reads codec)
          (report_of-clean _ (parsed codec files.state)
            (ap is_clean (sym (verify_chain-report l v)) ∙ c)).0

    -- A clean report means that the records of the log, each with its recorded links, are one chain
    -- of hashes from the first hash on, numbered from 1, and the report counts them.
    pub verify_chain-Linked :
        files.log ≡ some body
        → verify_chain codec files ≡ some r
        → is_clean r ≡ true
        → Linked codec (collect codec [] (lines body))
          × (r.chained ≡ length (collect codec [] (lines body)))
    unfolding report_of
    verify_chain-Linked l v c =
        let reads = verify_chain-Reads l v c in
        (reads.linked, ap (λ x. x.chained) (verify_chain-report l v) ∙ reads.count)

    -- With a usable state beside the log, a clean report also means that the chain ends where the
    -- state says: a log cut at its end, or extended past the state, is never clean.
    pub verify_chain-state :
        (st : ChainState)
        → files.log ≡ some body
        → verify_chain codec files ≡ some r
        → is_clean r ≡ true
        → parsed codec files.state ≡ some (some st)
        → usable st ≡ true
        → (st.last_seq ≡ last_seq_of codec (collect codec [] (lines body)))
          × (st.head_hash ≡ head_of codec (collect codec [] (lines body)))
    verify_chain-state st l v c p u =
        let reads = verify_chain-Reads l v c in
        let scan = check_lines codec 1 first_scan (lines body) in
        let crossed = cross_check-nil st (tail_or_genesis scan.tail) (
          unfold check_state in
          (rw (p, u) at
            (report_of-clean scan (parsed codec files.state)
              (ap is_clean (sym (verify_chain-report l v)) ∙ c)).1)) in
        (crossed.0 ∙ reads.tail_seq, crossed.1 ∙ reads.tail_hash)
