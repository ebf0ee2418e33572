-- ===== src/Engine/Results.antt =====
-- `NebulaErrorCode`, `IssueResult`, `RefreshResult` and `RevokeResult` of
-- packages/typescript/src/index.ts, and `#fail`.
use nebula_token.Common.{ℕ, Option, none, some, Text}
use nebula_token.Store.Rows.{TokenRecord}

pub data ErrorCode : Type 0 where
  malformed unknown_kid not_found verifier_mismatch reuse_detected revoked_token : ErrorCode
  expired_absolute expired_idle device_mismatch conflict : ErrorCode

pub record IssueResult : Type 0 where
  pub token : Text
  pub user_id : Text
  pub family_id : Text
  pub generation : ℕ
  pub expires_at : ℕ
  pub idle_expires_at : ℕ

pub record RefreshFailure : Type 0 where
  pub error : ErrorCode
  pub user_id : Option Text
  pub family_id : Option Text

-- `RefreshSuccess` has the fields of `IssueResult`.
pub data RefreshResult : Type 0 where
  success : IssueResult → RefreshResult
  failure : RefreshFailure → RefreshResult

pub data RevokeResult : Type 0 where
  revoked_family : Text → Text → ℕ → RevokeResult
  revoke_failure : RefreshFailure → RevokeResult

abbrev pub unattributed : ErrorCode → RefreshFailure
unattributed code = record { error = code; user_id = none; family_id = none }

-- `#fail`
abbrev pub fail : ErrorCode → TokenRecord → RefreshFailure
fail code r = record { error = code; user_id = some r.user_id; family_id = some r.family_id }
