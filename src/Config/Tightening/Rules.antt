-- ===== src/Config/Tightening/Rules.antt =====
-- The tool rules of a merge, compared identity by identity.
use apohara_agentguard.Prelude.{
  ◌≤◌, true, false, some, List, [], ◌∷◌, ◌≡◌, refl, sym, ◌∙◌, arith, All, inl, inr, eq_text_iff,
  Bool-cases, ok, checked-eq-ok,
}
use apohara_agentguard.Verdict.{Thresholds}
use apohara_agentguard.Config.{Config, ToolRule}
use apohara_agentguard.Config.Tightening.{
  TighteningPresence, same_rule, find_rule, rank_by, weaker_than, check_rules, put_rule, put_rules,
  merge_tool_rules,
}

pub record SameRule (u r : ToolRule) : Type 0 where
  pub tool : u.tool ≡ r.tool
  pub arg : u.arg ≡ r.arg
  pub pattern : u.pattern ≡ r.pattern

SameRule-refl : (u : ToolRule) → SameRule u u
SameRule-refl u = record { tool = refl; arg = refl; pattern = refl }

SameRule-sym : {u r : ToolRule} → SameRule u r → SameRule r u
SameRule-sym h = record { tool = sym h.tool; arg = sym h.arg; pattern = sym h.pattern }

SameRule-trans : {u r s : ToolRule} → SameRule u r → SameRule r s → SameRule u s
SameRule-trans h k = record {
  tool = h.tool ∙ k.tool;
  arg = h.arg ∙ k.arg;
  pattern = h.pattern ∙ k.pattern;
}

same_rule-iff-1 : (u r : ToolRule) → same_rule u r ≡ true → SameRule u r
unfolding same_rule
same_rule-iff-1 u r h =
    ground
      (arith, eq_text_iff u.tool r.tool, eq_text_iff u.arg r.arg, eq_text_iff u.pattern r.pattern)

same_rule-iff-2 : (u r : ToolRule) → SameRule u r → same_rule u r ≡ true
unfolding same_rule
same_rule-iff-2 u r h =
    ground
      (arith, eq_text_iff u.tool r.tool, eq_text_iff u.arg r.arg, eq_text_iff u.pattern r.pattern)

-- `m` keeps the identity of the user rule `u` and acts no weaker.
pub record Keeps (eff : Thresholds) (u m : ToolRule) : Type 0 where
  pub same : SameRule u m
  pub rank : rank_by eff u ≤ rank_by eff m

-- Rule by rule, in the user's order; the project's additions follow.
abbrev pub Covers : Thresholds → List ToolRule → List ToolRule → Type 0
Covers eff [] ms = Unit
Covers eff (u ∷ us) [] = ⊥
Covers eff (u ∷ us) (m ∷ ms) = Keeps eff u m × Covers eff us ms

Covers-refl : (eff : Thresholds) (us : List ToolRule) → Covers eff us us
Covers-refl eff [] = tt
Covers-refl eff (u ∷ us) =
    (record { same = SameRule-refl u; rank = omega arith }, Covers-refl eff us)

-- What the loop has checked of one project rule: it acts no weaker than the first user rule of its
-- identity.
abbrev NotWeaker : Thresholds → List ToolRule → ToolRule → Type 0
NotWeaker eff base pr = (u : ToolRule) → find_rule base pr ≡ some u → rank_by eff u ≤ rank_by eff pr

weaker_than-NotWeaker :
    (eff : Thresholds) (base : List ToolRule) (pr : ToolRule)
    → weaker_than eff (find_rule base pr) pr ≡ false
    → NotWeaker eff base pr
unfolding weaker_than
weaker_than-NotWeaker eff base pr h u e = ground arith

check_rules-NotWeaker :
    (eff : Thresholds) (prs base : List ToolRule)
    → check_rules eff prs base ≡ ok tt
    → All (NotWeaker eff base) prs
unfolding check_rules
check_rules-NotWeaker eff [] base h = tt
check_rules-NotWeaker eff (pr ∷ prs) base h =
    elim (Bool-cases (weaker_than eff (find_rule base pr) pr)) [
      | inl e ↦ cc (rw e at h)
      | inr e ↦
          (weaker_than-NotWeaker eff base pr e, check_rules-NotWeaker eff prs base (rw e at h))
    ]

find_rule_here :
    (u : ToolRule) (us : List ToolRule) (pr : ToolRule)
    → SameRule u pr
    → find_rule (u ∷ us) pr ≡ some u
unfolding find_rule
find_rule_here u us pr same = rw (same_rule-iff-2 u pr same)

find_rule_later :
    (u m : ToolRule) (us : List ToolRule) (pr : ToolRule)
    → SameRule u m
    → same_rule m pr ≡ false
    → find_rule (u ∷ us) pr ≡ find_rule us pr
unfolding find_rule
find_rule_later u m us pr same e = elim (Bool-cases (same_rule u pr)) [
  | inl t ↦
      let moved = SameRule-trans (SameRule-sym same) (same_rule-iff-1 u pr t) in
      cc (e, same_rule-iff-2 m pr moved)
  | inr t ↦ rw t
]

put_rule-Covers :
    (eff : Thresholds) (base ms : List ToolRule) (pr : ToolRule)
    → NotWeaker eff base pr
    → Covers eff base ms
    → Covers eff base (put_rule ms pr)
unfolding put_rule
put_rule-Covers eff [] ms pr n c = tt
put_rule-Covers eff (u ∷ us) [] pr n c = elim c [ ]
put_rule-Covers eff (u ∷ us) (m ∷ ms) pr n (k, c) = elim (Bool-cases (same_rule m pr)) [
  | inl e ↦
      let same = SameRule-trans k.same (same_rule-iff-1 m pr e) in
      rw e (record { same = same; rank = n u (find_rule_here u us pr same) }, c)
  | inr e ↦
      rw e (k, put_rule-Covers eff us ms pr (λ v f. n v (find_rule_later u m us pr k.same e ∙ f)) c)
]

put_rules-Covers :
    (eff : Thresholds) (base ms prs : List ToolRule)
    → All (NotWeaker eff base) prs
    → Covers eff base ms
    → Covers eff base (put_rules ms prs)
unfolding put_rules
put_rules-Covers eff base ms [] n c = c
put_rules-Covers eff base ms (pr ∷ prs) n c =
    put_rules-Covers eff base (put_rule ms pr) prs n.1 (put_rule-Covers eff base ms pr n.0 c)

pub merge_tool_rules-Covers :
    (eff : Thresholds) (base overlay : Config) (p : TighteningPresence) (l : List ToolRule)
    → merge_tool_rules eff base overlay p ≡ ok l
    → Covers eff base.tool_rules l
unfolding merge_tool_rules
merge_tool_rules-Covers eff base overlay p l h =
    let user = base.tool_rules in
    let project = overlay.tool_rules in
    elim (checked-eq-ok p.tool_rules (check_rules eff project user) (put_rules user project) user
      h) [
        | inl (c, e) ↦ rw (← e) (
            put_rules-Covers eff user user project (check_rules-NotWeaker eff project user c)
              (Covers-refl eff user))
        | inr e ↦ rw (← e) (Covers-refl eff user)
      ]
