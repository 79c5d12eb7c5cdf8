-- ===== src/Contract/Capped.antt =====
-- src/contract.rs: the length of a shown reason.
use apohara_agentguard.Prelude.Cut.{byte_len-cut-le}
use apohara_agentguard.Prelude.{
  ◌+◌, ◌-◌, ◌≤◌, Text, Option, none, some, [], ◌∷◌, ◌++◌, ◌≡◌, arith, leb, leb→le, inl, inr,
  byte_len, Bool-cases,
}
use apohara_agentguard.Contract.{max_context_bytes, ellipsis, HookSpecificOutput, cap_reason}

byte_len-append : (s t : Text) → byte_len (s ++ t) ≡ byte_len s + byte_len t
unfolding byte_len
byte_len-append [] t = omega arith
byte_len-append (c ∷ s) t = omega (arith, byte_len-append s t)

byte_len-ellipsis : byte_len ellipsis ≡ 3
unfolding byte_len
byte_len-ellipsis = omega arith

module _ (neutralize : Text → Text) where
  -- A reason that is shown, cut or not, has at most 4096 bytes, the marker included.
  pub byte_len-cap_reason :
      (reason : Text) → byte_len (cap_reason neutralize reason) ≤ max_context_bytes
  unfolding cap_reason
  byte_len-cap_reason reason =
      let text = neutralize reason in
      elim (Bool-cases (leb (byte_len text) max_context_bytes)) [
        | inl e ↦ rw e (leb→le _ _ e)
        | inr e ↦
            rw (e, byte_len-append)
              (omega (
                arith,
                byte_len-ellipsis,
                byte_len-cut-le text (max_context_bytes - byte_len ellipsis),
              ))
      ]

abbrev pub FieldFits : Option Text → Type 0
FieldFits none = Unit
FieldFits (some t) = byte_len t ≤ max_context_bytes

abbrev pub Fits : Option HookSpecificOutput → Type 0
Fits none = Unit
Fits (some o) = FieldFits o.permission_decision_reason × FieldFits o.additional_context
