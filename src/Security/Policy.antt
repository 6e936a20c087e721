-- ===== src/Security/Policy.antt =====
-- What the three approval modes allow.
use mathlib.Core.List.{Memᴰ}
use open_mind_ai.Base.{◌≡◌, ◌≢◌, ◌⊎◌, ◌↔◌, arith}
use open_mind_ai.Base.Text.{Text}
use open_mind_ai.Json.{Json}
use open_mind_ai.Security.{
  ApprovalMode, risk_based, always_ask, trusted_workspace, allow, require_approval, deny, RiskLevel,
  read_only, workspace_write, remote_mutation, prohibited, decide, classify_tool, authorize_tool,
  classify_operation, delivery_mutations,
}

decide-modes :
    (risk : RiskLevel) (mode : ApprovalMode)
    → ((decide risk always_ask ≡ allow) ↔ (risk ≡ read_only))
      × ((decide risk risk_based ≡ allow) ↔ ((risk ≡ read_only) ⊎ (risk ≡ workspace_write)))
      × ((decide risk trusted_workspace ≡ allow) ↔ ((risk ≢ remote_mutation) × (risk ≢ prohibited)))
      × ((decide risk mode ≡ deny) ↔ (risk ≡ prohibited))
unfolding decide
decide-modes risk mode = (
  (λ e. ground arith, λ e. ground arith),
  (λ e. ground arith, λ e. ground arith),
  (λ e. ground arith, λ e. ground arith),
  (λ e. ground arith, λ e. ground arith),
)

delivery-asks :
    (operation : Text) (mode : ApprovalMode)
    → Memᴰ operation delivery_mutations
    → decide (classify_operation operation) mode ≡ require_approval
unfolding classify_operation decide
delivery-asks o mode (Memᴰ.head e) = rw e
delivery-asks o mode (Memᴰ.tail (Memᴰ.head e)) = rw e
delivery-asks o mode (Memᴰ.tail (Memᴰ.tail (Memᴰ.head e))) = rw e
delivery-asks o mode (Memᴰ.tail (Memᴰ.tail (Memᴰ.tail (Memᴰ.head e)))) = rw e
delivery-asks o mode (Memᴰ.tail (Memᴰ.tail (Memᴰ.tail (Memᴰ.tail (Memᴰ.head e))))) = rw e
delivery-asks o mode (Memᴰ.tail (Memᴰ.tail (Memᴰ.tail (Memᴰ.tail (Memᴰ.tail (Memᴰ.head e)))))) =
    rw e
delivery-asks o mode (Memᴰ.tail (Memᴰ.tail (Memᴰ.tail (Memᴰ.tail (Memᴰ.tail (Memᴰ.tail h)))))) =
    elim h [ ]

module _ (json : Json) where
  open json use {Value}

  -- With no approval, "always ask" runs only read-only calls, "risk based" also workspace writes,
  -- and "trusted workspace" all but remote mutations and prohibited calls; the prohibited calls, and
  -- no others, are denied, in every mode.
  pub authorize_tool-modes :
      (tool : Text) (action : Value) (mode : ApprovalMode)
      → let risk = classify_tool json tool action in
        (((authorize_tool json tool action always_ask).0 ≡ allow) ↔ (risk ≡ read_only))
        × (((authorize_tool json tool action risk_based).0 ≡ allow)
            ↔ ((risk ≡ read_only) ⊎ (risk ≡ workspace_write)))
        × (((authorize_tool json tool action trusted_workspace).0 ≡ allow)
            ↔ ((risk ≢ remote_mutation) × (risk ≢ prohibited)))
        × (((authorize_tool json tool action mode).0 ≡ deny) ↔ (risk ≡ prohibited))
  unfolding authorize_tool
  authorize_tool-modes tool action mode = decide-modes (classify_tool json tool action) mode
  -- A delivery that changes the remote repository asks for approval in every mode.
