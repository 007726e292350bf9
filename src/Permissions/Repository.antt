-- ===== src/Permissions/Repository.antt =====
-- packages/storage/src/permissions/permission-repository.ts: the storage that the manager is given.
-- Its implementation calls a database client; the manager depends on this interface alone. `none`
-- is a StorageError.
use ai_desktop.Base.{ℕ, Option, List, Text}
use ai_desktop.Permissions.Policy.{PermissionPolicy, PermissionCheck}

pub data AuditDecision : Type 0 where
  allow deny requires_user : AuditDecision

pub data DecidedBy : Type 0 where
  user policy : DecidedBy

pub record Audit : Type 0 where
  pub id : Text
  pub project_id : Option Text
  pub conversation_id : Option Text
  pub permission_request_id : Option Text
  pub check : PermissionCheck
  pub decision : AuditDecision
  pub decided_by : DecidedBy
  pub reason : Option Text
  pub timestamp : ℕ

-- `S` is the state of the database.
pub record PermissionRepository (S : Type 0) : Type 0 where
  pub save_policy : PermissionPolicy → S → Option S
  pub find_policies : Option Text → S → Option (List PermissionPolicy)
  pub delete_policies_by_criteria : Text → Option Text → Option Text → S → Option (S × ℕ)
  pub record_audit : Audit → S → Option S
