-- ===== src/Audit/Chain/Links.antt =====
-- The lines that a scan has read, as a chain of hashed contents.
use apohara_agentguard.Prelude.{
  ℕ, ◌+◌, Text, Bool, true, false, not, ◌&&◌, Option, none, some, List, [], ◌∷◌, ◌++◌, ◌≡◌, ◌≢◌,
  inl, inr, refl, sym, ap, subst, ◌∙◌, arith, length, eq_text, eq_text_iff, ◌==◌, trim, is_empty,
  if◌then◌else◌, Bool-cases,
}
use apohara_agentguard.Contract.{and_then}
use apohara_agentguard.Audit.Chain.{
  genesis_hash, ChainHashInput, ParsedRecord, Codec, Defect, hash_mismatch, missing_seq,
  prev_mismatch, seq_gap, Scan, first_scan, push_defect, push_if, next_seq, valid_hex,
  input_of_record, chain_hash, check_links, check_seq, check_record, check_line, check_lines,
  tail_or_genesis, is_none,
}

push_defect-ne-nil : (s : Scan) (d : Defect) → (push_defect s d).defects ≢ []
unfolding push_defect
push_defect-ne-nil s d = snoc-ne-nil s.defects
  where
    snoc-ne-nil : (xs : List Defect) → xs ++ d ∷ [] ≢ []
    snoc-ne-nil [] h = cc
    snoc-ne-nil (x ∷ xs) h = cc

-- A test that leaves no defect has not fired.
push_if_clean :
    (b : Bool) (s : Scan) (d : Defect)
    → (push_if b s d).defects ≡ []
    → (b ≡ false) × (push_if b s d ≡ s)
unfolding push_if
push_if_clean true s d h = elim (push_defect-ne-nil s d h) [ ]
push_if_clean false s d h = (refl, refl)

module _ {V : Type 0} (codec : Codec V) where
  -- The chain of hashed contents, newest first.
  abbrev pub head_of : List ChainHashInput → Text
  head_of [] = genesis_hash
  head_of (i ∷ is) = chain_hash codec i

  abbrev pub last_seq_of : List ChainHashInput → ℕ
  last_seq_of [] = 0
  last_seq_of (i ∷ is) = i.seq

  abbrev pub Linked : List ChainHashInput → Type 0
  Linked [] = Unit
  Linked (i ∷ is) = (i.seq ≡ next_seq (last_seq_of is)) × (i.prev ≡ head_of is) × Linked is

  -- The hashed content of a record that has all the fields of the chain.
  abbrev pub sealed_input : ParsedRecord → Option ChainHashInput
  sealed_input rec = and_then rec.seq (λ seq.
      and_then (valid_hex rec.prev)
        (λ prev. and_then (valid_hex rec.hash) (λ hash. some (input_of_record seq prev rec))))

  abbrev pub input_of_line : Text → Option ChainHashInput
  input_of_line text =
      if is_empty (trim text) then none else and_then (codec.parse_record text) sealed_input

  abbrev pub push : Option ChainHashInput → List ChainHashInput → List ChainHashInput
  push none acc = acc
  push (some i) acc = i ∷ acc

  abbrev pub collect : List ChainHashInput → List Text → List ChainHashInput
  collect acc [] = acc
  collect acc (text ∷ rest) = collect (push (input_of_line text) acc) rest

  -- A scan that has met no defect, and the chain it has read.
  pub record Reads (s : Scan) (acc : List ChainHashInput) : Type 0 where
    pub no_defect : s.defects ≡ []
    pub linked : Linked acc
    pub tail_seq : (tail_or_genesis s.tail).0 ≡ last_seq_of acc
    pub tail_hash : (tail_or_genesis s.tail).1 ≡ head_of acc
    pub expected : s.expected_seq ≡ next_seq (last_seq_of acc)
    pub prev : s.prev_hash ≡ head_of acc
    pub count : s.chained ≡ length acc

  pub first_scan-Reads : Reads first_scan []
  first_scan-Reads = record {
    no_defect = refl;
    linked = tt;
    tail_seq = refl;
    tail_hash = refl;
    expected = omega arith;
    prev = refl;
    count = refl;
  }

  -- The tests of a chained record that a scan without defects has passed, and the scan after it.
  record Passes (s : Scan) (rec : ParsedRecord) (seq : ℕ) (p h : Option Text) (t : Scan)
      : Type 0 where
    prev : Text
    hash : Text
    has_prev : p ≡ some prev
    has_hash : h ≡ some hash
    prev_eq : prev ≡ s.prev_hash
    hash_eq : chain_hash codec (input_of_record seq prev rec) ≡ hash
    after : t ≡ record s { prev_hash = hash; tail = some (seq, hash) }
    no_defect : s.defects ≡ []

  check_links-Passes :
      (line : ℕ) (s : Scan) (seq : ℕ) (rec : ParsedRecord) (p h : Option Text)
      → (check_links codec line s seq rec p h).defects ≡ []
      → Passes s rec seq p h (check_links codec line s seq rec p h)
  unfolding check_links
  check_links-Passes line s seq rec none h e = elim (push_defect-ne-nil s _ e) [ ]
  check_links-Passes line s seq rec (some prev) none e = elim (push_defect-ne-nil s _ e) [ ]
  check_links-Passes line s seq rec (some prev) (some hash) e =
      let hashed = push_if_clean _ _ (hash_mismatch line) e in
      let linked =
        push_if_clean (not (eq_text prev s.prev_hash)) s (prev_mismatch line s.prev_hash prev)
          (ap (λ x. x.defects) (sym hashed.1) ∙ e) in
      record {
        prev = prev;
        hash = hash;
        has_prev = refl;
        has_hash = refl;
        prev_eq = ground (arith, linked.0, eq_text_iff prev s.prev_hash);
        hash_eq =
            ground
              (arith, hashed.0, eq_text_iff (chain_hash codec (input_of_record seq prev rec)) hash);
        after =
            ap {A = Scan} {B = Scan} (λ x. record x { prev_hash = hash; tail = some (seq, hash) })
              (hashed.1 ∙ linked.1);
        no_defect = ap (λ x. x.defects) (sym linked.1) ∙ ap (λ x. x.defects) (sym hashed.1) ∙ e;
      }

  check_seq-Passes :
      (line : ℕ) (s : Scan) (rec : ParsedRecord) (seq : ℕ)
      → (check_seq codec line s rec (some seq)).defects ≡ []
      → (seq ≡ s.expected_seq)
        × Passes
            (record s { expected_seq = next_seq seq })
            rec
            seq
            (valid_hex rec.prev)
            (valid_hex rec.hash)
            (check_seq codec line s rec (some seq))
  unfolding check_seq
  check_seq-Passes line s rec seq h =
      let counted : Scan =
        push_if (not (seq == s.expected_seq)) s (seq_gap line s.expected_seq seq) in
      let passed =
        check_links-Passes line (record counted { expected_seq = next_seq seq }) seq rec
          (valid_hex rec.prev) (valid_hex rec.hash) h in
      let uncounted =
        push_if_clean (not (seq == s.expected_seq)) s (seq_gap line s.expected_seq seq)
          passed.no_defect in
      (
        ground (arith, uncounted.0),
        subst
            (λ x.
              Passes (record x { expected_seq = next_seq seq }) rec seq (valid_hex rec.prev)
                (valid_hex rec.hash) (check_seq codec line s rec (some seq)))
            uncounted.1 passed,
      )

  sealed_input-some :
      (rec : ParsedRecord) (seq : ℕ) {prev hash : Text}
      → rec.seq ≡ some seq
      → valid_hex rec.prev ≡ some prev
      → valid_hex rec.hash ≡ some hash
      → sealed_input rec ≡ some (input_of_record seq prev rec)
  sealed_input-some rec seq e p h = ground arith

  sealed_input-none :
      (rec : ParsedRecord) → (is_none rec.seq && is_none rec.hash) ≡ true → sealed_input rec ≡ none
  sealed_input-none rec e = ground arith

  -- A chained record that adds no defect lengthens the chain by its hashed content.
  check_seq-Reads :
      (line : ℕ) (s : Scan) (rec : ParsedRecord) (q : Option ℕ) (acc : List ChainHashInput)
      → rec.seq ≡ q
      → (check_seq codec line (record s { seen_v2 = true; chained = s.chained + 1 }) rec q).defects
        ≡ []
      → (s.defects ≡ [])
        × (Reads s acc
            → Reads
                (check_seq codec line (record s { seen_v2 = true; chained = s.chained + 1 }) rec q)
                (push (sealed_input rec) acc))
  unfolding input_of_record
  check_seq-Reads line s rec none acc e h =
      elim (push_defect-ne-nil (record s { seen_v2 = true; chained = s.chained + 1 })
        (missing_seq line) (unfold check_seq in h)) [ ]
  check_seq-Reads line s rec (some seq) acc e h =
      let (seq_eq, passed) =
        check_seq-Passes line (record s { seen_v2 = true; chained = s.chained + 1 }) rec seq h in
      (
        passed.no_defect,
        λ r.
            rw (passed.after, sealed_input-some rec seq e passed.has_prev passed.has_hash)
              (record {
                no_defect = passed.no_defect;
                linked = (seq_eq ∙ r.expected, passed.prev_eq ∙ r.prev, r.linked);
                tail_seq = refl;
                tail_hash = sym passed.hash_eq;
                expected = refl;
                prev = sym passed.hash_eq;
                count = omega (arith, r.count);
              }),
      )

  check_record-Reads :
      (line : ℕ) (s : Scan) (p : Option ParsedRecord) (acc : List ChainHashInput)
      → (check_record codec line s p).defects ≡ []
      → (s.defects ≡ [])
        × (Reads s acc → Reads (check_record codec line s p) (push (and_then p sealed_input) acc))
  unfolding check_record
  check_record-Reads line s none acc h = elim (Bool-cases s.seen_v2) [
    | inl e ↦ elim (push_defect-ne-nil s _ (rw e at h)) [ ]
    | inr e ↦ rw e (
      rw e at h,
      λ r. record {
        no_defect = r.no_defect;
        linked = r.linked;
        tail_seq = r.tail_seq;
        tail_hash = r.tail_hash;
        expected = r.expected;
        prev = r.prev;
        count = r.count;
      },
    )
  ]
  check_record-Reads line s (some rec) acc h =
      elim (Bool-cases (is_none rec.seq && is_none rec.hash)) [
        | inl e ↦
            rw (e, sealed_input-none rec e)
              (
                rw e at h,
                λ r. record {
                  no_defect = r.no_defect;
                  linked = r.linked;
                  tail_seq = r.tail_seq;
                  tail_hash = r.tail_hash;
                  expected = r.expected;
                  prev = r.prev;
                  count = r.count;
                },
              )
        | inr e ↦ rw e (check_seq-Reads line s rec rec.seq acc refl (rw e at h))
      ]

  check_line-Reads :
      (line : ℕ) (s : Scan) (text : Text) (acc : List ChainHashInput)
      → (check_line codec line s text).defects ≡ []
      → (s.defects ≡ [])
        × (Reads s acc → Reads (check_line codec line s text) (push (input_of_line text) acc))
  unfolding check_line
  check_line-Reads line s text acc h = elim (Bool-cases (is_empty (trim text))) [
    | inl e ↦ rw e (rw e at h, λ r. r)
    | inr e ↦ rw e (check_record-Reads line s (codec.parse_record text) acc (rw e at h))
  ]

  check_lines_clean :
      (line : ℕ) (s : Scan) (body : List Text)
      → (check_lines codec line s body).defects ≡ []
      → s.defects ≡ []
  unfolding check_lines
  check_lines_clean line s [] h = h
  check_lines_clean line s (text ∷ rest) h =
      (check_line-Reads line s text []
        (check_lines_clean (line + 1) (check_line codec line s text) rest h)).0

  pub check_lines-Reads :
      (line : ℕ) (s : Scan) (body : List Text) (acc : List ChainHashInput)
      → Reads s acc
      → (check_lines codec line s body).defects ≡ []
      → Reads (check_lines codec line s body) (collect acc body)
  unfolding check_lines
  check_lines-Reads line s [] acc r h = r
  check_lines-Reads line s (text ∷ rest) acc r h =
      let after = check_line codec line s text in
      check_lines-Reads (line + 1) after rest (push (input_of_line text) acc)
        ((check_line-Reads line s text acc (check_lines_clean (line + 1) after rest h)).1 r) h
