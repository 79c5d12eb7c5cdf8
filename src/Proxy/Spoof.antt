-- ===== src/Proxy/Spoof.antt =====
-- src/proxy/spoof.rs: the ids that the relay mints for the requests it forwards.
--
-- A `HashMap` is a list of its entries. The random source is what it returns at each of the three
-- attempts, and the clock is the instant that it gives, in nanoseconds.
pub mod Table
pub mod Answered
mod Tests
use apohara_agentguard.Prelude.{
  ℕ, zero, suc, ◌+◌, ◌-◌, ◌*◌, ◌/◌, ◌%◌, ◌^◌, Text, codes, Bool, true, false, not, ◌&&◌, ◌||◌,
  Option, none, some, List, [], ◌∷◌, ◌++◌, any, filter, length, is_empty, eq_text, ltb, leb, ◌==◌,
  Result, ok, err, if◌then◌else◌,
}

abbrev proxy_id_prefix : Text
proxy_id_prefix = codes "agp-"

abbrev pub max_pending_requests : ℕ
max_pending_requests = 1024

abbrev pub recent_ttl : ℕ
recent_ttl = 60000000000

abbrev prune_interval_ops : ℕ
prune_interval_ops = 64

abbrev pub max_recent_entries : ℕ
max_recent_entries = 4096

pub data RegisterError : Type 0 where
  overloaded : RegisterError
  rng_unavailable : Text → RegisterError

pub record PendingEntry : Type 0 where
  pub host_id_raw : Text
  pub is_tools_list : Bool

pub record IdRewriter : Type 0 where
  pub pending : List (Text × PendingEntry)
  pub recent : List (Text × ℕ)
  pub ops : ℕ

abbrev pub new_rewriter : IdRewriter
new_rewriter = record { pending = []; recent = []; ops = 0 }

module _ {A : Type 0} where
  unfoldable pub get : Text → List (Text × A) → Option A
  get key [] = none
  get key ((k, v) ∷ entries) = let rest = get key entries in if eq_text key k then some v else rest

  unfoldable pub remove : Text → List (Text × A) → List (Text × A)
  remove key [] = []
  remove key ((k, v) ∷ entries) =
      let rest = remove key entries in if eq_text key k then rest else (k, v) ∷ rest

abbrev is_found : {A : Type 0} → Option A → Bool
is_found none = false
is_found (some v) = true

-- `contains_key`
abbrev pub holds : {A : Type 0} → Text → List (Text × A) → Bool
holds key entries = is_found (get key entries)

unfoldable pub insert : {A : Type 0} → Text → A → List (Text × A) → List (Text × A)
unfolding remove
insert key value entries = (key, value) ∷ remove key entries

abbrev hex_digit : ℕ → ℕ
hex_digit n = if ltb n 10 then 48 + n else 87 + n

-- `hex_encode`
hex_encode : List ℕ → Text
hex_encode [] = []
hex_encode (b ∷ bs) = hex_digit (b / 16) ∷ hex_digit (b % 16) ∷ hex_encode bs

unfoldable pub quote_proxy_id : Text → Text
quote_proxy_id proxy_id = codes "\"" ++ proxy_id ++ codes "\""

abbrev pub Draw : Type 0
Draw = Result Text (List ℕ)

unfoldable pub minted_id : List ℕ → Text
unfolding hex_encode
minted_id bytes = proxy_id_prefix ++ hex_encode bytes

abbrev pub is_fresh : IdRewriter → Text → Bool
is_fresh r id = not (holds id r.pending) && not (holds id r.recent)

-- The loop over the attempts: the first fresh candidate, or none.
unfoldable pub mint : IdRewriter → List Draw → Result RegisterError (Option Text)
mint r [] = ok none
mint r (err e ∷ draws) = err (rng_unavailable e)
mint r (ok bytes ∷ draws) =
    let rest = mint r draws in
    if is_fresh r (minted_id bytes) then ok (some (minted_id bytes)) else rest

-- The key of the oldest entry, the first of equals.
abbrev older : Text → ℕ → Option (Text × ℕ) → Text × ℕ
older key seen none = (key, seen)
older key seen (some (k, t)) = if leb seen t then (key, seen) else (k, t)

unfoldable oldest : List (Text × ℕ) → Option (Text × ℕ)
oldest [] = none
oldest ((k, t) ∷ entries) = some (older k t (oldest entries))

-- The `while` loop that sheds the oldest, with the rounds bounded by `fuel`.
unfoldable shed : ℕ → List (Text × ℕ) → List (Text × ℕ)
unfolding oldest
shed zero entries = entries
shed (suc fuel) entries =
    if ltb (length entries) max_recent_entries
    then entries
    else elim (oldest entries) [ none ↦ entries | some (k, t) ↦ shed fuel (remove k entries) ]

abbrev is_recent : ℕ → Text × ℕ → Bool
is_recent now entry = ltb (now - entry.1) recent_ttl

abbrev fresh_only : ℕ → List (Text × ℕ) → List (Text × ℕ)
fresh_only now entries = filter (is_recent now) entries

unfoldable pub amortized_prune : ℕ → IdRewriter → IdRewriter
unfolding shed
amortized_prune now r =
    let ops = suc r.ops % 2 ^ 64 in
    let kept = fresh_only now r.recent in
    if not (ops % prune_interval_ops == 0) && ltb (length r.recent) max_recent_entries
    then record r { ops = ops }
    else record r { ops = ops; recent = shed (length kept) kept }

abbrev pub Registered : Type 0
Registered = Result RegisterError Text × IdRewriter

unfoldable register_minted :
    ℕ → PendingEntry → Result RegisterError (Option Text) → IdRewriter → Registered
register_minted now entry (err e) r = (err e, r)
register_minted now entry (ok none) r =
    (err (rng_unavailable (codes "proxy id space exhausted (repeated collisions)")), r)
register_minted now entry (ok (some id)) r =
    (ok (quote_proxy_id id), amortized_prune now (record r { pending = insert id entry r.pending }))

-- `register`, with the three draws of the random source
unfoldable pub register : ℕ → Draw × Draw × Draw → Text → Bool → IdRewriter → Registered
unfolding mint register_minted
register now (a, b, c) host_id_raw is_tools_list r =
    if leb max_pending_requests (length r.pending)
    then (err overloaded, r)
    else register_minted now (record { host_id_raw = host_id_raw; is_tools_list = is_tools_list })
        (mint r (a ∷ b ∷ c ∷ [])) r

unfoldable resolve_found :
    ℕ → ℕ → Text → Option PendingEntry → IdRewriter → Option PendingEntry × IdRewriter
resolve_found seen now proxy_id none r = (none, r)
resolve_found seen now proxy_id (some entry) r = (
  some entry,
  amortized_prune now
      (record r { pending = remove proxy_id r.pending; recent = insert proxy_id seen r.recent }),
)

-- `seen` and `now` are the two readings of the clock.
unfoldable pub resolve : ℕ → ℕ → Text → IdRewriter → Option PendingEntry × IdRewriter
unfolding resolve_found
resolve seen now proxy_id r = resolve_found seen now proxy_id (get proxy_id r.pending) r

abbrev pub recently_consumed : Text → IdRewriter → Bool
recently_consumed proxy_id r = holds proxy_id r.recent

abbrev pub pending_len : IdRewriter → ℕ
pending_len r = length r.pending
