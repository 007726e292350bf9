-- ===== src/Permissions/Manager.antt =====
-- packages/permissions/src/core/default-permission-manager.ts: its state and its checkpoint, `check`.
-- Time stamps and fresh ids are in `Env`; an `await` on the sink or the storage returns before the
-- next statement. Prose in events and reasons is left out.
pub mod Frames
pub mod Checkpoint
pub mod Once
use ai_desktop.Base.{
  ℕ, Bool, true, false, not, ◌&&◌, ◌||◌, Option, none, some, List, [], ◌∷◌, ◌++◌, Text, codes,
  length, all, filter, ltb, leb, ◌==◌, if◌then◌else◌, text_eq, includes, is_set, map, trim,
}
use ai_desktop.Base.Dict
use ai_desktop.Ids.{is_ulid, to_upper}
use ai_desktop.Permissions.Policy.{
  RiskLevel, PermissionStatus, PermissionScope, PermissionPolicy, PermissionCheck, Evaluation,
  evaluate,
}
use ai_desktop.Permissions.Repository.{AuditDecision, DecidedBy, Audit, PermissionRepository}

pub record PermissionRequest : Type 0 where
  pub id : Text
  pub related_tool_call_ids : List Text
  pub capability : Text
  pub action : Text
  pub resource : Text
  pub scope : PermissionScope
  pub risk : RiskLevel
  pub status : PermissionStatus
  pub reason : Option Text
  pub created_at : ℕ
  pub project_id : Option Text
  pub conversation_id : Option Text

pub data PermissionEvent : Type 0 where
  requested : PermissionRequest → PermissionEvent
  granted : Text → PermissionScope → Option Text → PermissionEvent
  denied : Text → Option Text → PermissionEvent
  revoked : Text → Option Text → PermissionEvent
  policy_created policy_deleted : Text → Option PermissionScope → PermissionEvent

pub record CheckPermissionOptions : Type 0 where
  pub project_id : Option Text
  pub conversation_id : Option Text
  pub batch_id : Option Text

-- What one call reads from the clock and the id generator.
pub record Env : Type 0 where
  pub request_id : Text
  pub policy_id : Text
  pub audit_id : Text
  pub listed_at : ℕ
  pub matched_at : ℕ
  pub stamped_at : ℕ
  pub audited_at : ℕ

pub record PermissionManager (S : Type 0) : Type 0 where
  pub storage : Option S
  pub has_sink : Bool
  pub pending_requests : List (Text × PermissionRequest)
  pub session_policies : List PermissionPolicy
  pub once_approvals : List Text
  pub coalesced_batches : List (Text × PermissionRequest)
  pub events : List PermissionEvent

pub data PermissionDecisionResult : Type 0 where
  allow : PermissionDecisionResult
  deny : Text → PermissionDecisionResult
  requires_user : PermissionRequest → PermissionDecisionResult

pub data CheckResult : Type 0 where
  decided : PermissionDecisionResult → CheckResult
  validation_error storage_error : CheckResult

-- `PermissionCheckSchema`: no empty field, at least one tool call, ids are trimmed and put in upper case.
unfoldable pub parse_check : PermissionCheck → Option PermissionCheck
parse_check request =
    if is_set (some request.capability)
      && is_set (some request.action)
      && is_set (some request.resource)
      && ltb 0 (length request.related_tool_call_ids)
      && all (λ id. is_ulid (trim id)) request.related_tool_call_ids
    then some (record request {
      related_tool_call_ids = map (λ id. to_upper (trim id)) request.related_tool_call_ids;
    })
    else none

-- `Set.delete` for each id.
unfoldable pub remove_all : List Text → List Text → List Text
remove_all ids once = filter (λ id. not (includes ids id)) once

-- `Set.add` for each id.
unfoldable pub add_all : List Text → List Text → List Text
add_all [] once = once
add_all (id ∷ ids) once = add_all ids (if includes once id then once else once ++ id ∷ [])

-- `!p.expiresAt || p.expiresAt > nowMs`.
abbrev pub alive_at : ℕ → Option ℕ → Bool
alive_at now none = true
alive_at now (some t) = t == 0 || ltb now t

unfoldable pub alive : ℕ → PermissionPolicy → Bool
alive now p = alive_at now p.expires_at

pub scope_name : PermissionScope → Text
scope_name PermissionScope.once = codes "once"
scope_name PermissionScope.session = codes "session"
scope_name PermissionScope.workspace = codes "workspace"
scope_name PermissionScope.project = codes "project"
scope_name PermissionScope.always = codes "always"

-- The template literal that names a batch.
pub coalesce_key : Text → PermissionCheck → Text
coalesce_key batch_id check =
    batch_id
    ++ (b':' ∷ check.capability ++ (b':' ∷ scope_name check.scope ++ (b':' ∷ check.resource)))

-- The loop that adds the ids which the request does not have yet.
unfoldable pub merge_ids : List Text → List Text → List Text
merge_ids existing [] = existing
merge_ids existing (id ∷ ids) =
    merge_ids (if includes existing id then existing else existing ++ id ∷ []) ids

unfoldable pub new_request : Env → CheckPermissionOptions → PermissionCheck → PermissionRequest
new_request env options check = record {
  id = env.request_id;
  related_tool_call_ids = check.related_tool_call_ids;
  capability = check.capability;
  action = check.action;
  resource = check.resource;
  scope = check.scope;
  risk = check.risk;
  status = PermissionStatus.pending;
  reason = check.reason;
  created_at = env.stamped_at;
  project_id = options.project_id;
  conversation_id = options.conversation_id;
}

module _ {S : Type 0} where
  unfoldable pub emit : PermissionEvent → PermissionManager S → PermissionManager S
  emit e m = if m.has_sink then record m { events = m.events ++ e ∷ [] } else m

  -- Every related call holds a once-grant.
  unfoldable pub all_once_authorized : PermissionCheck → PermissionManager S → Bool
  all_once_authorized check m =
      all (λ id. includes m.once_approvals id) check.related_tool_call_ids
      && ltb 0 (length check.related_tool_call_ids)

  pub still_pending : PermissionManager S → Option PermissionRequest → Option PermissionRequest
  still_pending m none = none
  still_pending m (some r) = if Dict.has r.id m.pending_requests then some r else none

  -- The pending request that an entry of `_coalescedBatches` stands for, if it is still open.
  unfoldable pub open_batch :
      Option Text → PermissionCheck → PermissionManager S → Option PermissionRequest
  open_batch none check m = none
  open_batch (some b) check m =
      if is_set (some b)
      then still_pending m (Dict.get (coalesce_key b check) m.coalesced_batches)
      else none

  unfoldable pub remember_batch :
      Option Text → PermissionCheck → PermissionRequest → PermissionManager S → PermissionManager S
  remember_batch none check r m = m
  remember_batch (some b) check r m =
      if is_set (some b)
      then record m { coalesced_batches = Dict.set (coalesce_key b check) r m.coalesced_batches }
      else m

  module _ (repo : PermissionRepository S) where
    -- `_recordAudit`: a failure of the storage is swallowed.
    unfoldable pub record_audit : Audit → PermissionManager S → PermissionManager S
    record_audit a m = record m {
      storage = elim m.storage [
        | none ↦ none
        | some s ↦ elim (repo.record_audit a s) [ none ↦ some s | some s' ↦ some s' ]
      ];
    }

    -- `listActivePolicies`; `none` is a StorageError.
    unfoldable pub list_active_policies :
        ℕ → Option Text → PermissionManager S → Option (List PermissionPolicy)
    list_active_policies now project_id m =
        let valid_session = filter (alive now) m.session_policies in
        elim m.storage [
          | none ↦ some valid_session
          | some s ↦ elim (repo.find_policies project_id s) [
            | none ↦ none
            | some stored ↦ some (valid_session ++ filter (alive now) stored)
          ]
        ]

    module _ (env : Env) (options : CheckPermissionOptions) (check : PermissionCheck) where
      pub check_audit : Option Text → AuditDecision → DecidedBy → Option Text → Audit
      check_audit request_id decision decided_by reason = record {
        id = env.audit_id;
        project_id = options.project_id;
        conversation_id = options.conversation_id;
        permission_request_id = request_id;
        check = check;
        decision = decision;
        decided_by = decided_by;
        reason = reason;
        timestamp = env.audited_at;
      }

      -- Step A: the once-grants of these calls are used up.
      unfoldable pub consume_once : PermissionManager S → PermissionManager S
      consume_once m =
          record_audit
            (check_audit none AuditDecision.allow DecidedBy.user
              (some (codes "Authorized via allow_once")))
            (record m { once_approvals = remove_all check.related_tool_call_ids m.once_approvals })

      -- Steps D and E: join the open request of the batch, or open a new one.
      unfoldable pub ask_user : PermissionManager S → PermissionManager S × PermissionRequest
      ask_user m = elim (open_batch options.batch_id check m) [
        | some existing ↦
            let updated = record existing {
              related_tool_call_ids =
                  merge_ids existing.related_tool_call_ids check.related_tool_call_ids;
            } in
            (
              remember_batch options.batch_id check updated
                  (record m { pending_requests = Dict.set existing.id updated m.pending_requests }),
              updated,
            )
        | none ↦
            let request = new_request env options check in
            (
              emit (PermissionEvent.requested request) (
                  record_audit
                    (check_audit (some env.request_id) AuditDecision.requires_user DecidedBy.policy
                      none)
                    (remember_batch options.batch_id check request (record m {
                      pending_requests = Dict.set env.request_id request m.pending_requests;
                    }))),
              request,
            )
      ]

      -- Steps B to E.
      unfoldable pub check_policies : PermissionManager S → PermissionManager S × CheckResult
      check_policies m = elim (list_active_policies env.listed_at options.project_id m) [
        | none ↦ (m, storage_error)
        | some active ↦ elim (evaluate env.matched_at check active) [
          | Evaluation.allow ↦ (
            record_audit (check_audit none AuditDecision.allow DecidedBy.policy none) m,
            decided PermissionDecisionResult.allow,
          )
          | Evaluation.deny rule ↦ (
            record_audit (check_audit none AuditDecision.deny DecidedBy.policy (some rule)) m,
            decided (PermissionDecisionResult.deny rule),
          )
          | Evaluation.requires_user ↦
              let (m', request) = ask_user m in
              (m', decided (PermissionDecisionResult.requires_user request))
        ]
      ]

      unfoldable pub check_parsed : PermissionManager S → PermissionManager S × CheckResult
      check_parsed m =
          if all_once_authorized check m
          then (consume_once m, decided PermissionDecisionResult.allow)
          else check_policies m

    unfoldable pub check_permission :
        Env
        → CheckPermissionOptions
        → PermissionCheck
        → PermissionManager S
        → PermissionManager S × CheckResult
    check_permission env options request m = elim (parse_check request) [
      | none ↦ (m, validation_error)
      | some check ↦ check_parsed env options check m
    ]
