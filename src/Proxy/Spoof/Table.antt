-- ===== src/Proxy/Spoof/Table.antt =====
-- src/proxy/spoof.rs: the entries of the two maps, and their sizes over a session.
use apohara_agentguard.Prelude.{
  ℕ, zero, suc, ◌≤◌, ◌<◌, ◌≡◌, refl, sym, subst, arith, Text, Bool, true, false, Option, none, some,
  List, [], ◌∷◌, length, eq_text, eq_text_iff, eq_text_refl, leb, ltb, Bool-cases, inl, inr, Result,
  ok, err,
}
use apohara_agentguard.Proxy.Spoof.{
  IdRewriter, PendingEntry, RegisterError, get, remove, insert, holds, mint, oldest, shed,
  fresh_only, amortized_prune, register_minted, register, resolve_found, resolve,
  max_pending_requests, max_recent_entries, older, Draw,
}

module _ {A : Type 0} where
  remove-length :
      (key : Text) (entries : List (Text × A)) → length (remove key entries) ≤ length entries
  unfolding remove
  remove-length key [] = omega arith
  remove-length key ((k, v) ∷ entries) = elim (Bool-cases (eq_text key k)) [
    | inl e ↦ rw e (omega (arith, remove-length key entries))
    | inr e ↦ rw e (omega (arith, remove-length key entries))
  ]

  pub get-remove : (key : Text) (entries : List (Text × A)) → get key (remove key entries) ≡ none
  unfolding get remove
  get-remove key [] = refl
  get-remove key ((k, v) ∷ entries) = elim (Bool-cases (eq_text key k)) [
    | inl e ↦ rw e (get-remove key entries)
    | inr e ↦ rw (e, e) (get-remove key entries)
  ]

  pub get-insert :
      (key : Text) (value : A) (entries : List (Text × A))
      → get key (insert key value entries) ≡ some value
  unfolding get insert
  get-insert key value entries = rw (eq_text_refl key) refl

  pub get-remove_other :
      (key other : Text) (entries : List (Text × A))
      → eq_text key other ≡ false
      → get key (remove other entries) ≡ get key entries
  unfolding get remove
  get-remove_other key other [] h = refl
  get-remove_other key other ((k, v) ∷ entries) h = elim (Bool-cases (eq_text other k)) [
    | inl e ↦
        let same = (eq_text_iff other k).0 e in
        rw (e, subst (λ t. eq_text key t ≡ false) same h) (get-remove_other key other entries h)
    | inr e ↦ elim (Bool-cases (eq_text key k)) [
      | inl f ↦ rw (e, f) refl
      | inr f ↦ rw (e, f) (get-remove_other key other entries h)
    ]
  ]

  -- An entry that the list holds goes with its key.
  remove-length_found :
      (key : Text) (entries : List (Text × A))
      → holds key entries ≡ true
      → length (remove key entries) < length entries
  unfolding remove get
  remove-length_found key [] h = ground (arith, h)
  remove-length_found key ((k, v) ∷ entries) h = elim (Bool-cases (eq_text key k)) [
    | inl e ↦ rw e (omega (arith, remove-length key entries))
    | inr e ↦ rw e (omega (arith, remove-length_found key entries (rw e at h)))
  ]

holds-cons :
    {A : Type 0} (key k : Text) (v : A) (entries : List (Text × A))
    → holds key entries ≡ true
    → holds key ((k, v) ∷ entries) ≡ true
unfolding get
holds-cons key k v entries h = elim (Bool-cases (eq_text key k)) [
  | inl e ↦ rw e refl
  | inr e ↦ rw e h
]

holds-head :
    {A : Type 0} (k : Text) (v : A) (entries : List (Text × A)) → holds k ((k, v) ∷ entries) ≡ true
unfolding get
holds-head k v entries = rw (eq_text_refl k) refl

older-holds :
    (k : Text) (t : ℕ) (entries : List (Text × ℕ)) (found : Option (Text × ℕ))
    → ((p : Text × ℕ) → found ≡ some p → holds p.0 entries ≡ true)
    → holds (older k t found).0 ((k, t) ∷ entries) ≡ true
older-holds k t entries none f = holds-head k t entries
older-holds k t entries (some (key, u)) f = elim (Bool-cases (leb t u)) [
  | inl e ↦ rw e (holds-head k t entries)
  | inr e ↦ rw e (holds-cons key k t entries (f (key, u) refl))
]

oldest-holds :
    (entries : List (Text × ℕ)) (p : Text × ℕ) → oldest entries ≡ some p → holds p.0 entries ≡ true
unfolding oldest
oldest-holds [] p h = cc
oldest-holds ((k, t) ∷ entries) p h =
    let same : older k t (oldest entries) ≡ p = cc in
    subst (λ (q : Text × ℕ). holds q.0 ((k, t) ∷ entries) ≡ true) same
      (older-holds k t entries (oldest entries) (λ q. oldest-holds entries q))

filter-length :
    (now : ℕ) (entries : List (Text × ℕ)) → length (fresh_only now entries) ≤ length entries
filter-length now [] = omega arith
filter-length now (e ∷ entries) = ground (arith, filter-length now entries)

-- The fuel is enough: the loop ends below the cap.
shed-length :
    (fuel : ℕ) (entries : List (Text × ℕ))
    → length entries ≤ fuel
    → length (shed fuel entries) < max_recent_entries
unfolding shed
shed-length zero entries h = ground (arith, h)
shed-length (suc fuel) [] h = ground arith
shed-length (suc fuel) ((k, t) ∷ entries) h =
    elim (Bool-cases (ltb (suc (length entries)) max_recent_entries)) [
      | inl e ↦ rw e (ground (arith, e))
      | inr e ↦
          let (key, u) = older k t (oldest entries) in
          rw e (
            shed-length fuel (remove key ((k, t) ∷ entries)) (
              omega (
                arith,
                h,
                remove-length_found key ((k, t) ∷ entries)
                    (oldest-holds ((k, t) ∷ entries) (key, u) refl),
              )))
    ]

-- The table holds at most as many requests as the cap, and fewer consumed ids than theirs.
pub record IsBounded (r : IdRewriter) : Type 0 where
  pub pending_le : length r.pending ≤ max_pending_requests
  pub recent_lt : length r.recent < max_recent_entries

pub prune-pending : (now : ℕ) (r : IdRewriter) → (amortized_prune now r).pending ≡ r.pending
unfolding amortized_prune
prune-pending now r = ground arith

prune-recent :
    (now : ℕ) (r : IdRewriter) → length (amortized_prune now r).recent < max_recent_entries
unfolding amortized_prune
prune-recent now r =
    ground (arith, shed-length (length (fresh_only now r.recent)) (fresh_only now r.recent))

insert-length :
    {A : Type 0} (key : Text) (value : A) (entries : List (Text × A))
    → length (insert key value entries) ≤ suc (length entries)
unfolding insert
insert-length key value entries = omega (arith, remove-length key entries)

pruned-IsBounded :
    (now : ℕ) (r : IdRewriter)
    → length r.pending ≤ max_pending_requests
    → IsBounded (amortized_prune now r)
pruned-IsBounded now r h = record {
  pending_le =
      subst (λ entries. length entries ≤ max_pending_requests) (sym (prune-pending now r)) h;
  recent_lt = prune-recent now r;
}

register_minted-IsBounded :
    (now : ℕ) (entry : PendingEntry) (m : Result RegisterError (Option Text)) (r : IdRewriter)
    → length r.pending < max_pending_requests
    → IsBounded r
    → IsBounded (register_minted now entry m r).1
unfolding register_minted
register_minted-IsBounded now entry (err e) r h b = b
register_minted-IsBounded now entry (ok none) r h b = b
register_minted-IsBounded now entry (ok (some id)) r h b =
    pruned-IsBounded now (record r { pending = insert id entry r.pending })
      (omega (arith, h, insert-length id entry r.pending))

resolve_found-IsBounded :
    (seen now : ℕ) (id : Text) (found : Option PendingEntry) (r : IdRewriter)
    → IsBounded r
    → IsBounded (resolve_found seen now id found r).1
unfolding resolve_found
resolve_found-IsBounded seen now id none r b = b
resolve_found-IsBounded seen now id (some entry) r b =
    pruned-IsBounded now
      (record r { pending = remove id r.pending; recent = insert id seen r.recent })
      (omega (arith, b.pending_le, remove-length id r.pending))

-- What a session does with its table.
pub data Call : Type 0 where
  registers : ℕ → Draw × Draw × Draw → Text → Bool → Call
  resolves : ℕ → ℕ → Text → Call

unfoldable pub run_calls : List Call → IdRewriter → IdRewriter
run_calls [] r = r
run_calls (registers now draws raw flag ∷ calls) r =
    run_calls calls (register now draws raw flag r).1
run_calls (resolves seen now id ∷ calls) r = run_calls calls (resolve seen now id r).1

register-IsBounded :
    (now : ℕ) (draws : Draw × Draw × Draw) (raw : Text) (flag : Bool) (r : IdRewriter)
    → IsBounded r
    → IsBounded (register now draws raw flag r).1
unfolding register
register-IsBounded now draws raw flag r b =
    elim (Bool-cases (leb max_pending_requests (length r.pending))) [
      | inl e ↦ rw e b
      | inr e ↦ rw e (
          register_minted-IsBounded now (record { host_id_raw = raw; is_tools_list = flag })
            (mint r (draws.0 ∷ draws.1 ∷ draws.2 ∷ [])) r (ground (arith, e)) b)
    ]

-- Whatever requests are registered and whatever ids come back, in any order: no more requests than
-- the cap are pending, and fewer consumed ids than theirs are kept.
pub run_calls-IsBounded :
    (calls : List Call) (r : IdRewriter) → IsBounded r → IsBounded (run_calls calls r)
unfolding run_calls
run_calls-IsBounded [] r b = b
run_calls-IsBounded (registers now draws raw flag ∷ calls) r b =
    run_calls-IsBounded calls (register now draws raw flag r).1
      (register-IsBounded now draws raw flag r b)
run_calls-IsBounded (resolves seen now id ∷ calls) r b =
    run_calls-IsBounded calls (resolve seen now id r).1
      (unfold resolve in resolve_found-IsBounded seen now id (get id r.pending) r b)
