-- ===== src/Gate/Scan/Grows.antt =====
-- src/gate/mod.rs: no step of a scan loses severity, and a match reaches its own.
use apohara_agentguard.Prelude.{
  ℕ, ◌≤◌, arith, Text, Bool, true, false, Option, none, some, List, [], ◌∷◌, In, leb, Bool-cases,
  inl, inr, ltb, if◌then◌else◌, codes, ◌≡◌,
}
use apohara_agentguard.Config.{CustomBlock}
use apohara_agentguard.Gate.Compound.{split_compound}
use apohara_agentguard.Gate.Taxonomy.{DestructiveRule}
use apohara_agentguard.Gate.Taxonomy.Shape.{
  Triple, live_substitution_bodies, fetch_pipe_to_shell, fork_bomb_presplit,
}
use apohara_agentguard.Gate.Packs.{CommunityRule, community_matches}
use apohara_agentguard.Gate.Scan.{
  Hit, Best, Scan, consider, consider_found, scan_table, scan_community, scan_custom,
  custom_block_matches, consider_triple, scan_unsplit, scan_each, apart, scan_bodies, scan_payload,
  max_subst_depth,
}

-- The best hit is at least this severe.
abbrev pub Reaches : ℕ → Best → Type 0
Reaches severity none = ⊥
Reaches severity (some hit) = severity ≤ hit.severity

-- A fold that keeps what was reached.
abbrev pub Grows : (Best → Best) → Type 0
Grows f = (severity : ℕ) (best : Best) → Reaches severity best → Reaches severity (f best)

pub consider-Grows : (hit : Hit) → Grows (λ best. consider best hit)
unfolding consider
consider-Grows hit severity none h = elim h [ ]
consider-Grows hit severity (some existing) h =
    elim (Bool-cases (leb hit.severity existing.severity)) [
      | inl e ↦ rw e h
      | inr e ↦ rw e (ground (arith, h, e))
    ]

pub consider-Reaches : (best : Best) (hit : Hit) → Reaches hit.severity (consider best hit)
unfolding consider
consider-Reaches none hit = omega arith
consider-Reaches (some existing) hit = elim (Bool-cases (leb hit.severity existing.severity)) [
  | inl e ↦ rw e (ground (arith, e))
  | inr e ↦ rw e (omega arith)
]

pub consider_found-Grows : (found : Best) → Grows (λ best. consider_found best found)
unfolding consider_found
consider_found-Grows none severity best h = h
consider_found-Grows (some hit) severity best h = consider-Grows hit severity best h

le-Reaches : (s t : ℕ) (best : Best) → s ≤ t → Reaches t best → Reaches s best
le-Reaches s t none h k = elim k [ ]
le-Reaches s t (some hit) h k = omega (arith, h, k)

pub consider_found-Reaches :
    (severity : ℕ) (best found : Best)
    → Reaches severity found
    → Reaches severity (consider_found best found)
unfolding consider_found
consider_found-Reaches severity best none h = elim h [ ]
consider_found-Reaches severity best (some hit) h =
    le-Reaches severity hit.severity (consider best hit) h (consider-Reaches best hit)

-- A condition on a step that is a choice.
pub if-Grows : (b : Bool) (hit : Hit) → Grows (λ best. if b then consider best hit else best)
if-Grows true hit severity best h = consider-Grows hit severity best h
if-Grows false hit severity best h = h

pub scan_table-Grows :
    (leg text : Text) (rs : List DestructiveRule) → Grows (scan_table leg text rs)
unfolding scan_table
scan_table-Grows leg text [] severity best h = h
scan_table-Grows leg text (r ∷ rs) severity best h =
    scan_table-Grows leg text rs severity _ (if-Grows (r.matcher text) _ severity best h)

pub scan_community-Grows :
    (leg text : Text) (rs : List CommunityRule) → Grows (scan_community leg text rs)
unfolding scan_community
scan_community-Grows leg text [] severity best h = h
scan_community-Grows leg text (r ∷ rs) severity best h =
    scan_community-Grows leg text rs severity _
      (if-Grows (community_matches r text) _ severity best h)

pub scan_custom-Grows : (leg : Text) (cbs : List CustomBlock) → Grows (scan_custom leg cbs)
unfolding scan_custom
scan_custom-Grows leg [] severity best h = h
scan_custom-Grows leg (cb ∷ cbs) severity best h =
    scan_custom-Grows leg cbs severity _ (if-Grows (custom_block_matches cb leg) _ severity best h)

-- A matching entry of a table is reached.
pub scan_table-Reaches :
    (leg text : Text) (rs : List DestructiveRule) (best : Best) (q : DestructiveRule)
    → In q rs
    → q.matcher text ≡ true
    → Reaches q.severity (scan_table leg text rs best)
unfolding scan_table
scan_table-Reaches leg text [] best q m h = elim m [ ]
scan_table-Reaches leg text (r ∷ rs) best q (inl e) h =
    rw (← e)
      (rw (rw (← e) at h) (scan_table-Grows leg text rs r.severity _ (consider-Reaches best _)))
scan_table-Reaches leg text (r ∷ rs) best q (inr m) h = scan_table-Reaches leg text rs _ q m h

pub scan_community-Reaches :
    (leg text : Text) (rs : List CommunityRule) (best : Best) (q : CommunityRule)
    → In q rs
    → community_matches q text ≡ true
    → Reaches q.severity (scan_community leg text rs best)
unfolding scan_community
scan_community-Reaches leg text [] best q m h = elim m [ ]
scan_community-Reaches leg text (r ∷ rs) best q (inl e) h =
    rw (← e)
      (rw (rw (← e) at h) (scan_community-Grows leg text rs r.severity _ (consider-Reaches best _)))
scan_community-Reaches leg text (r ∷ rs) best q (inr m) h =
    scan_community-Reaches leg text rs _ q m h

pub scan_custom-Reaches :
    (leg : Text) (cbs : List CustomBlock) (best : Best) (q : CustomBlock)
    → In q cbs
    → custom_block_matches q leg ≡ true
    → Reaches q.severity (scan_custom leg cbs best)
unfolding scan_custom
scan_custom-Reaches leg [] best q m h = elim m [ ]
scan_custom-Reaches leg (r ∷ rs) best q (inl e) h =
    rw (← e) (rw (rw (← e) at h) (scan_custom-Grows leg rs r.severity _ (consider-Reaches best _)))
scan_custom-Reaches leg (r ∷ rs) best q (inr m) h = scan_custom-Reaches leg rs _ q m h

pub consider_triple-Grows :
    (text label : Text) (t : Option Triple) → Grows (consider_triple text label t)
unfolding consider_triple
consider_triple-Grows text label none severity best h = h
consider_triple-Grows text label (some (id, s, category)) severity best h =
    consider-Grows _ severity best h

pub consider_triple-Reaches :
    (text label : Text) (found : Option Triple) (t : Triple) (best : Best)
    → found ≡ some t
    → Reaches t.1 (consider_triple text label found best)
unfolding consider_triple
consider_triple-Reaches text label found t best e = rw e (consider-Reaches best _)

pub scan_unsplit-Grows : (text : Text) → Grows (scan_unsplit text)
unfolding scan_unsplit
scan_unsplit-Grows text severity best h =
    consider_triple-Grows text (codes "dos") (fork_bomb_presplit text) severity _ (
      consider_triple-Grows text (codes "fetch-piped-to-shell") (fetch_pipe_to_shell text) severity
        best h)

-- A scan that keeps what was reached, on every text.
abbrev pub ScanGrows : Scan → Type 0
ScanGrows scan = (t : Text) → Grows (scan t)

pub scan_each-Grows : (scan : Scan) → ScanGrows scan → (ts : List Text) → Grows (scan_each scan ts)
unfolding scan_each
scan_each-Grows scan g [] severity best h = h
scan_each-Grows scan g (t ∷ ts) severity best h =
    scan_each-Grows scan g ts severity (scan t best) (g t severity best h)

-- What the scan of one text always reaches, the scan of a list that holds the text does.
pub scan_each-Reaches :
    (scan : Scan)
    → ScanGrows scan
    → (severity : ℕ) (t : Text) → ((best : Best) → Reaches severity (scan t best))
    → (ts : List Text) (best : Best) → In t ts
    → Reaches severity (scan_each scan ts best)
unfolding scan_each
scan_each-Reaches scan g severity t r [] best m = elim m [ ]
scan_each-Reaches scan g severity t r (u ∷ ts) best (inl e) =
    scan_each-Grows scan g ts severity (scan u best) (rw e (r best))
scan_each-Reaches scan g severity t r (u ∷ ts) best (inr m) =
    scan_each-Reaches scan g severity t r ts (scan u best) m

apart-Grows : (scan : Scan) → ScanGrows (apart scan)
unfolding apart
apart-Grows scan t severity best h = consider_found-Grows (scan t none) severity best h

pub scan_bodies-Grows : (next : Scan) (depth : ℕ) → ScanGrows (scan_bodies next depth)
unfolding scan_bodies
scan_bodies-Grows next depth leg severity best h = elim (Bool-cases (ltb depth max_subst_depth)) [
  | inl e ↦ rw e (
      scan_each-Grows (apart next) (apart-Grows next) (live_substitution_bodies leg) severity best
        h)
  | inr e ↦ rw e h
]

pub scan_payload-Grows :
    (next : Scan) → ScanGrows next → (payload : Option Text) → Grows (scan_payload next payload)
unfolding scan_payload
scan_payload-Grows next g none severity best h = h
scan_payload-Grows next g (some decoded) severity best h =
    scan_each-Grows next g (split_compound decoded) severity best h

-- A fetch that is piped to a shell, and a fork bomb, are reached on an unsplit text.
pub scan_unsplit-fetch :
    (text : Text) (t : Triple) (best : Best)
    → fetch_pipe_to_shell text ≡ some t
    → Reaches t.1 (scan_unsplit text best)
unfolding scan_unsplit
scan_unsplit-fetch text t best e =
    consider_triple-Grows text (codes "dos") (fork_bomb_presplit text) t.1 _ (
      consider_triple-Reaches text (codes "fetch-piped-to-shell") (fetch_pipe_to_shell text) t best
        e)

pub scan_unsplit-bomb :
    (text : Text) (t : Triple) (best : Best)
    → fork_bomb_presplit text ≡ some t
    → Reaches t.1 (scan_unsplit text best)
unfolding scan_unsplit
scan_unsplit-bomb text t best e =
    consider_triple-Reaches text (codes "dos") (fork_bomb_presplit text) t _ e
