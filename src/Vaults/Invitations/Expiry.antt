-- ===== src/Vaults/Invitations/Expiry.antt =====
-- The sweep over stale invitations leaves none.
use safe_pass.Base.{ℕ, ◌≡◌, false, ◌&&◌, not, List, ◌==◌, any, All}
use safe_pass.Store.{VaultInvitation}
use safe_pass.Vaults.Invitations.{is_stale}

-- Each stale row is named by the list.
abbrev IsCovered : ℕ → List VaultInvitation → List VaultInvitation → Type 0
IsCovered now named rows =
    All (λ x. (is_stale now x && not (any (λ i. i.id == x.id) named)) ≡ false) rows
