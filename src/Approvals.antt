-- ===== src/Approvals.antt =====
-- approvals/models.py: a tool call parked for a human. A moment is the count of microseconds since
-- an epoch, in UTC.
pub mod Store
pub mod Service
pub mod Samples
mod Tests
use mcp_gatekeeper.Prelude.{ℕ, ◌-◌, Bool, true, false, ◌&&◌, Option, Text, codes, leb}
use mcp_gatekeeper.Json.{Fields}

abbrev pub timeout_approver : Text
timeout_approver = codes "system:timeout"

abbrev pub client_approver : Text
client_approver = codes "system:client-dismissed"

pub data ApprovalStatus : Type 0 where
  pending approved denied expired : ApprovalStatus

abbrev pub is_pending : ApprovalStatus → Bool
is_pending pending = true
is_pending _ = false

unfoldable pub is_resolved : ApprovalStatus → Bool
is_resolved pending = false
is_resolved _ = true

unfoldable pub is_granted : ApprovalStatus → Bool
is_granted approved = true
is_granted _ = false

pub record ApprovalRequest : Type 0 where
  pub id : Text
  pub created_at : ℕ
  pub expires_at : ℕ
  pub status : ApprovalStatus
  pub tool : Text
  pub upstream : Text
  pub arguments : Fields
  pub reason : Option Text
  pub client_name : Option Text
  pub decided_at : Option ℕ
  pub approver : Option Text
  pub note : Option Text

unfoldable pub is_expired_at : ApprovalRequest → ℕ → Bool
is_expired_at r now = is_pending r.status && leb r.expires_at now

-- `max(0, expires_at - now)`, in microseconds.
unfoldable pub seconds_remaining : ApprovalRequest → ℕ → ℕ
seconds_remaining r now = r.expires_at - now
