-- ===== src/Audit/Chain/Tamper.antt =====
-- Tampering: two logs that verify against one state, compared record by record, as far as the hash
-- has no collision among their contents and the counter of 64 bits has not wrapped around.
use apohara_agentguard.Prelude.{
  ◌^◌, ◌<◌, Text, true, some, List, [], ◌∷◌, ◌≡◌, ◌≢◌, ◌⊎◌, inl, inr, refl, sym, ap, ◌∙◌, arith,
  length, All, All-map,
}
use apohara_agentguard.Prelude.Lines.{lines}
use apohara_agentguard.Audit.Chain.{
  ChainState, ChainHashInput, Codec, Files, ChainVerifyReport, is_clean, chain_hash, parsed, usable,
  verify_chain,
}
use apohara_agentguard.Audit.Chain.Links.{head_of, last_seq_of, Linked, collect}
use apohara_agentguard.Audit.Chain.Clean.{verify_chain-Linked, verify_chain-state}

module _ {V : Type 0} (codec : Codec V) where
  -- Contents of the two chains that hash alike are alike.
  abbrev pub NoCollision : List ChainHashInput → List ChainHashInput → Type 0
  NoCollision xs ys =
      All (λ x. All (λ y. (x ≡ y) ⊎ (chain_hash codec x ≢ chain_hash codec y)) ys) xs

  NoCollision-tail :
      (x y : ChainHashInput) (xs ys : List ChainHashInput)
      → NoCollision (x ∷ xs) (y ∷ ys)
      → NoCollision xs ys
  NoCollision-tail x y xs ys h =
      All-map (λ x. All (λ y. (x ≡ y) ⊎ (chain_hash codec x ≢ chain_hash codec y)) (y ∷ ys)) _
        (λ x h. h.1) xs h.1

  -- The numbers of a chain count its records, up to the width of the counter.
  last_seq_of-length :
      (xs : List ChainHashInput)
      → Linked codec xs
      → length xs < 2 ^ 64
      → last_seq_of codec xs ≡ length xs
  last_seq_of-length [] h k = refl
  last_seq_of-length (x ∷ xs) h k = omega (arith, h.0, last_seq_of-length xs h.2 (omega arith))

  Linked-eq :
      (xs ys : List ChainHashInput)
      → Linked codec xs
      → Linked codec ys
      → NoCollision xs ys
      → length xs ≡ length ys
      → head_of codec xs ≡ head_of codec ys
      → xs ≡ ys
  Linked-eq [] [] hx hy n l e = refl
  Linked-eq [] (y ∷ ys) hx hy n l e = ground arith
  Linked-eq (x ∷ xs) [] hx hy n l e = ground arith
  Linked-eq (x ∷ xs) (y ∷ ys) hx hy n l e =
      let same : x ≡ y = elim n.0.0 [ inl q ↦ q | inr d ↦ elim (d e) [ ] ] in
      let rest =
        Linked-eq xs ys hx.2 hy.2 (NoCollision-tail x y xs ys n) (omega arith)
          (sym hx.1 ∙ ap (λ i. i.prev) same ∙ hy.1) in
      cc

  -- Two logs of fewer than 2^64 chained records that verify as clean against the same usable state hold the same chained records, in
  -- the same order, unless two of their contents collide: nobody changes, drops, adds or reorders a
  -- record under a state that is kept safe.
  pub verify_chain_tamper :
      (a b : Files) (body_a body_b : Text) (ra rb : ChainVerifyReport) (st : ChainState)
      → a.log ≡ some body_a
      → b.log ≡ some body_b
      → verify_chain codec a ≡ some ra
      → verify_chain codec b ≡ some rb
      → is_clean ra ≡ true
      → is_clean rb ≡ true
      → parsed codec a.state ≡ some (some st)
      → parsed codec b.state ≡ some (some st)
      → usable st ≡ true
      → ra.chained < 2 ^ 64
      → rb.chained < 2 ^ 64
      → NoCollision (collect codec [] (lines body_a)) (collect codec [] (lines body_b))
      → collect codec [] (lines body_a) ≡ collect codec [] (lines body_b)
  verify_chain_tamper a b body_a body_b ra rb st la lb va vb ca cb pa pb u na nb n =
      let (linked_a, count_a) = verify_chain-Linked codec a body_a ra la va ca in
      let (linked_b, count_b) = verify_chain-Linked codec b body_b rb lb vb cb in
      let (seq_a, head_a) = verify_chain-state codec a body_a ra st la va ca pa u in
      let (seq_b, head_b) = verify_chain-state codec b body_b rb st lb vb cb pb u in
      Linked-eq (collect codec [] (lines body_a)) (collect codec [] (lines body_b)) linked_a
        linked_b n
        (omega (
          arith,
          seq_a,
          seq_b,
          last_seq_of-length (collect codec [] (lines body_a)) linked_a (omega (arith, count_a)),
          last_seq_of-length (collect codec [] (lines body_b)) linked_b (omega (arith, count_b)),
        ))
        (sym head_a ∙ head_b)
