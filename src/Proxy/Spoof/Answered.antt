-- ===== src/Proxy/Spoof/Answered.antt =====
-- src/proxy/spoof.rs: a minted id between its registration and its resolution.
use apohara_agentguard.Prelude.{
  ℕ, ◌<◌, ◌≡◌, refl, sym, ap, ◌∙◌, subst, arith, Text, Bool, true, false, not, ◌&&◌, Option, none,
  some, List, [], ◌∷◌, length, eq_text, eq_text_iff, leb, Bool-cases, inl, inr, Result, ok, err,
  if◌then◌else◌,
}
use apohara_agentguard.Proxy.Spoof.{
  IdRewriter, PendingEntry, RegisterError, get, remove, insert, holds, is_fresh, mint, minted_id,
  register_minted, register, resolve_found, resolve, max_pending_requests, quote_proxy_id, Draw,
  Registered, is_found,
}
use apohara_agentguard.Proxy.Spoof.Table.{
  Call, registers, resolves, run_calls, get-remove, get-insert, get-remove_other, prune-pending,
}

-- No call resolves the id.
abbrev pub spares : Text → List Call → Bool
spares id [] = true
spares id (registers now draws raw flag ∷ calls) = spares id calls
spares id (resolves seen now other ∷ calls) = not (eq_text id other) && spares id calls

chosen :
    (r : IdRewriter) (c id : Text) (rest : Result RegisterError (Option Text)) (b : Bool)
    → is_fresh r c ≡ b
    → (if b then ok (some c) else rest) ≡ ok (some id)
    → (rest ≡ ok (some id) → is_fresh r id ≡ true)
    → is_fresh r id ≡ true
chosen r c id rest true e h f = let same : c ≡ id = cc in subst (λ t. is_fresh r t ≡ true) same e
chosen r c id rest false e h f = f h

mint-fresh :
    (r : IdRewriter) (draws : List Draw) (id : Text)
    → mint r draws ≡ ok (some id)
    → is_fresh r id ≡ true
unfolding mint
mint-fresh r [] id h = cc
mint-fresh r (err e ∷ draws) id h = cc
mint-fresh r (ok bytes ∷ draws) id h =
    chosen r (minted_id bytes) id (mint r draws) (is_fresh r (minted_id bytes)) refl h
      (mint-fresh r draws id)

insert-keeps :
    {A : Type 0} (id other : Text) (v : A) (entries : List (Text × A))
    → eq_text id other ≡ false
    → get id (insert other v entries) ≡ get id entries
unfolding insert get
insert-keeps id other v entries h = rw h (get-remove_other id other entries h)

taken :
    (o : Option PendingEntry) (b : Bool) (entry : PendingEntry) {u v : Bool}
    → o ≡ some entry
    → (not (is_found o) && b) ≡ true
    → u ≡ v
taken none b entry g f = cc
taken (some e) b entry g f = cc

-- An id that is pending is not one that is fresh.
pending-other :
    (r : IdRewriter) (id other : Text) (entry : PendingEntry)
    → get id r.pending ≡ some entry
    → is_fresh r other ≡ true
    → eq_text id other ≡ false
pending-other r id other entry g f = elim (Bool-cases (eq_text id other)) [
  | inl e ↦
      let same = (eq_text_iff id other).0 e in
      let fresh = subst (λ t. is_fresh r t ≡ true) (sym same) f in
      taken (get id r.pending) (not (holds id r.recent)) entry g fresh
  | inr e ↦ e
]

minted-keeps :
    (now : ℕ) (new : PendingEntry) (m : Result RegisterError (Option Text)) (r : IdRewriter)
    (id : Text) (entry : PendingEntry)
    → ((other : Text) → m ≡ ok (some other) → is_fresh r other ≡ true)
    → get id r.pending ≡ some entry
    → get id (register_minted now new m r).1.pending ≡ some entry
unfolding register_minted
minted-keeps now new (err e) r id entry f g = g
minted-keeps now new (ok none) r id entry f g = g
minted-keeps now new (ok (some other)) r id entry f g =
    ap (get id) (prune-pending now (record r { pending = insert other new r.pending }))
    ∙ insert-keeps id other new r.pending (pending-other r id other entry g (f other refl))
    ∙ g

register-keeps :
    (now : ℕ) (draws : Draw × Draw × Draw) (raw : Text) (flag : Bool) (r : IdRewriter) (id : Text)
    (entry : PendingEntry)
    → get id r.pending ≡ some entry
    → get id (register now draws raw flag r).1.pending ≡ some entry
unfolding register
register-keeps now draws raw flag r id entry g =
    elim (Bool-cases (leb max_pending_requests (length r.pending))) [
      | inl e ↦ rw e g
      | inr e ↦ rw e (
          minted-keeps now (record { host_id_raw = raw; is_tools_list = flag })
            (mint r (draws.0 ∷ draws.1 ∷ draws.2 ∷ [])) r id entry
            (λ other. mint-fresh r (draws.0 ∷ draws.1 ∷ draws.2 ∷ []) other) g)
    ]

resolve_found-keeps :
    (seen now : ℕ) (other : Text) (found : Option PendingEntry) (r : IdRewriter) (id : Text)
    → eq_text id other ≡ false
    → get id (resolve_found seen now other found r).1.pending ≡ get id r.pending
unfolding resolve_found
resolve_found-keeps seen now other none r id h = refl
resolve_found-keeps seen now other (some entry) r id h =
    ap (get id) (
      prune-pending now
        (record r { pending = remove other r.pending; recent = insert other seen r.recent }))
    ∙ get-remove_other id other r.pending h

resolve-keeps :
    (seen now : ℕ) (other : Text) (r : IdRewriter) (id : Text)
    → eq_text id other ≡ false
    → get id (resolve seen now other r).1.pending ≡ get id r.pending
unfolding resolve
resolve-keeps seen now other r id h =
    resolve_found-keeps seen now other (get other r.pending) r id h

resolve-found :
    (seen now : ℕ) (id : Text) (r : IdRewriter) (entry : PendingEntry)
    → get id r.pending ≡ some entry
    → resolve seen now id r ≡ resolve_found seen now id (some entry) r
unfolding resolve
resolve-found seen now id r entry g = ap (λ found. resolve_found seen now id found r) g

resolve-first :
    (seen now : ℕ) (id : Text) (r : IdRewriter) (entry : PendingEntry)
    → get id r.pending ≡ some entry
    → ((resolve seen now id r).0 ≡ some entry) × (get id (resolve seen now id r).1.pending ≡ none)
unfolding resolve_found
resolve-first seen now id r entry g = rw (resolve-found seen now id r entry g) (
  refl,
  ap (get id) (
        prune-pending now
          (record r { pending = remove id r.pending; recent = insert id seen r.recent }))
      ∙ get-remove id r.pending,
)

resolve-none :
    (seen now : ℕ) (id : Text) (r : IdRewriter)
    → get id r.pending ≡ none
    → (resolve seen now id r).0 ≡ none
unfolding resolve resolve_found
resolve-none seen now id r g = rw g refl

run_calls-keeps :
    (calls : List Call) (r : IdRewriter) (id : Text) (entry : PendingEntry)
    → spares id calls ≡ true
    → get id r.pending ≡ some entry
    → get id (run_calls calls r).pending ≡ some entry
unfolding run_calls
run_calls-keeps [] r id entry s g = g
run_calls-keeps (registers now draws raw flag ∷ calls) r id entry s g =
    run_calls-keeps calls (register now draws raw flag r).1 id entry s
      (register-keeps now draws raw flag r id entry g)
run_calls-keeps (resolves seen now other ∷ calls) r id entry s g =
    run_calls-keeps calls (resolve seen now other r).1 id entry (ground (arith, s))
      (resolve-keeps seen now other r id (ground (arith, s)) ∙ g)

register-minted :
    (now : ℕ) (draws : Draw × Draw × Draw) (raw : Text) (flag : Bool) (r : IdRewriter) (id : Text)
    → length r.pending < max_pending_requests
    → mint r (draws.0 ∷ draws.1 ∷ draws.2 ∷ []) ≡ ok (some id)
    → register now draws raw flag r
      ≡ register_minted now (record { host_id_raw = raw; is_tools_list = flag }) (ok (some id)) r
unfolding register
register-minted now draws raw flag r id h m =
    let room : leb max_pending_requests (length r.pending) ≡ false = ground (arith, h) in
    rw (room, m) refl

minted-bound :
    (now : ℕ) (entry : PendingEntry) (id : Text) (r : IdRewriter)
    → ((register_minted now entry (ok (some id)) r).0 ≡ ok (quote_proxy_id id))
      × (get id (register_minted now entry (ok (some id)) r).1.pending ≡ some entry)
unfolding register_minted
minted-bound now entry id r = (
  refl,
  ap (get id) (prune-pending now (record r { pending = insert id entry r.pending }))
      ∙ get-insert id entry r.pending,
)

-- An id that is minted while there is room is given to the request. Whatever is registered and resolved
-- after that, without that id, its first resolution returns the id that the client had sent and the
-- kind of the request, and a second returns nothing.
pub resolve-register :
    (now : ℕ) (draws : Draw × Draw × Draw) (raw : Text) (flag : Bool) (r : IdRewriter) (id : Text)
    (calls : List Call) (seen later seen_again again : ℕ)
    → length r.pending < max_pending_requests
    → mint r (draws.0 ∷ draws.1 ∷ draws.2 ∷ []) ≡ ok (some id)
    → spares id calls ≡ true
    → let registered = register now draws raw flag r in
      let first = resolve seen later id (run_calls calls registered.1) in
      (registered.0 ≡ ok (quote_proxy_id id))
      × (first.0 ≡ some (record { host_id_raw = raw; is_tools_list = flag }))
      × ((resolve seen_again again id first.1).0 ≡ none)
resolve-register now draws raw flag r id calls seen later seen_again again h m s =
    let entry : PendingEntry = record { host_id_raw = raw; is_tools_list = flag } in
    let (answer, bound) = minted-bound now entry id r in
    let after = run_calls calls (register now draws raw flag r).1 in
    let given = register-minted now draws raw flag r id h m in
    let kept =
      run_calls-keeps calls (register now draws raw flag r).1 id entry s
        (ap (λ (x : Registered). get id x.1.pending) given ∙ bound) in
    let (first, gone) = resolve-first seen later id after entry kept in
    (
      ap (λ (x : Registered). x.0) given ∙ answer,
      first,
      resolve-none seen_again again id (resolve seen later id after).1 gone,
    )
