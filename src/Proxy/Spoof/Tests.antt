-- ===== src/Proxy/Spoof/Tests.antt =====
-- Runs of src/proxy/spoof.rs.
use apohara_agentguard.Prelude.{
  ◌≡◌, refl, codes, Text, Option, none, some, List, [], ◌∷◌, ok, err, arith, true, false,
}
use apohara_agentguard.Proxy.Spoof.{
  register, resolve, IdRewriter, new_rewriter, PendingEntry, quote_proxy_id, minted_id, mint, Draw,
}
use apohara_agentguard.Proxy.Spoof.Table.{
  Call, registers, resolves, run_calls, IsBounded, run_calls-IsBounded,
}
use apohara_agentguard.Proxy.Spoof.Answered.{spares, resolve-register}

abbrev draws : Draw × Draw × Draw
draws = (ok (1 ∷ 255 ∷ []), ok (2 ∷ []), err (codes "short read"))

abbrev first_id : Text
first_id = codes "agp-01ff"

mints_hex : (register 5 draws (codes "7") true new_rewriter).0 ≡ ok (quote_proxy_id first_id)
unfolding register apohara_agentguard.Proxy.Spoof.get minted_id
mints_hex = refl

abbrev calls : List Call
calls =
    registers 6 draws (codes "8") false
    ∷ resolves 7 7 (codes "agp-02")
    ∷ resolves 8 9 (codes "forged")
    ∷ []

answers_both :
    (resolve 9 10 first_id (run_calls calls (register 5 draws (codes "7") true new_rewriter).1)).0
    ≡ some (record { host_id_raw = codes "7"; is_tools_list = true })
unfolding register resolve run_calls apohara_agentguard.Proxy.Spoof.get
    apohara_agentguard.Proxy.Spoof.amortized_prune apohara_agentguard.Proxy.Spoof.insert
    apohara_agentguard.Prelude.eq_text minted_id
answers_both = refl

new_rewriter-IsBounded : IsBounded new_rewriter
new_rewriter-IsBounded = record { pending_le = omega arith; recent_lt = omega arith }

run_calls-IsBounded_example : IsBounded (run_calls calls new_rewriter)
run_calls-IsBounded_example = run_calls-IsBounded calls new_rewriter new_rewriter-IsBounded

mints_first : mint new_rewriter (draws.0 ∷ draws.1 ∷ draws.2 ∷ []) ≡ ok (some first_id)
unfolding mint apohara_agentguard.Proxy.Spoof.get minted_id
mints_first = refl

calls_spare : spares first_id calls ≡ true
unfolding apohara_agentguard.Prelude.eq_text
calls_spare = refl

resolve-register_example :
    let registered = register 5 draws (codes "7") true new_rewriter in
    let first = resolve 9 10 first_id (run_calls calls registered.1) in
    (registered.0 ≡ ok (quote_proxy_id first_id))
    × (first.0 ≡ some (record { host_id_raw = codes "7"; is_tools_list = true }))
    × ((resolve 11 12 first_id first.1).0 ≡ none)
resolve-register_example =
    resolve-register 5 draws (codes "7") true new_rewriter first_id calls 9 10 11 12 (omega arith)
      mints_first calls_spare
