-- ===== src/Sync/Engine/Gates.antt =====
-- sync-engine.ts: what its outbound gate lets through.
use ai_desktop.Base.{
  ◌≡◌, ◌≢◌, refl, sym, ap, ◌∙◌, subst, true, false, ◌&&◌, Option, none, some, Text, codes, inl, inr,
  text_eq, text_eq_refl, arith, Bool-cases, Option-cases,
}
use ai_desktop.Schemas.{◌>>=◌, fit, optional, ulid_string, timestamp_string}
use ai_desktop.Sync.Conflict.{SyncRecord, is_sync_tombstone}
use ai_desktop.Sync.Payload.{JsonValue, payload_has_secret_keys}
use ai_desktop.Sync.Transport.{WireSyncRecord, lacks_project, validate_sync_record_shape}
use ai_desktop.Sync.Engine.{
  SyncPlatform, is_sync_record, refined, gated, parse_sync_record, wire_of, canonical_to_wire,
  refuse_outbound, is_barred, payload_json,
}
use ai_desktop.Sync.Transport.Shape.{IsValidShape, validate_sync_record_shape-IsValidShape}

refined_same : (c r : SyncRecord) → refined c ≡ some r → c ≡ r
unfolding refined
refined_same c r e = elim (Bool-cases (is_sync_record c)) [
  | inl good ↦ ground arith
  | inr bad ↦ absurd (ground arith)
]

bind_some {ℓ κ} :
    {A : Type ℓ} {B : Type κ} (a : Option A) (k : A → Option B) (b : B)
    → (a >>= k) ≡ some b
    → (x : A) × (k x ≡ some b)
bind_some none k b e = cc
bind_some (some x) k b e = (x, e)

parse_sync_record_kept :
    (c r : SyncRecord)
    → parse_sync_record c ≡ some r
    → (r.entity_type ≡ c.entity_type) × (r.payload ≡ c.payload)
unfolding parse_sync_record
parse_sync_record_kept c r e =
    let (a, e1) = bind_some (ulid_string c.record_id) _ r e in
    let (b, e2) = bind_some (fit 256 c.entity_id) _ r e1 in
    let (d, e3) = bind_some (ulid_string c.account_id) _ r e2 in
    let (f, e4) = bind_some (ulid_string c.device_id) _ r e3 in
    let (u, e5) = bind_some (timestamp_string c.updated_at) _ r e4 in
    let (x, e6) = bind_some (optional timestamp_string c.deleted_at) _ r e5 in
    let same = refined_same _ r e6 in
    (ap (λ q. q.entity_type) (sym same), ap (λ q. q.payload) (sym same))

-- What may go out: an object that is not too large, without secret-shaped keys, and of no project.
pub record Sendable (stringify : JsonValue → Text) (w : WireSyncRecord) : Type 0 where
  pub shape : IsValidShape stringify w
  pub clean : payload_has_secret_keys w.payload ≡ false
  pub no_project : w.entity_type ≢ codes "project.metadata"

module _ (p : SyncPlatform) where
  -- Project metadata has no project id on the wire, and the check asks for one.
  wire_of_no_project :
      (r : SyncRecord)
      → IsValidShape p.stringify (wire_of p r)
      → r.entity_type ≢ codes "project.metadata"
  unfolding lacks_project wire_of
  wire_of_no_project r valid project =
      let same = text_eq_refl (codes "project.metadata") in
      let lacks =
        subst (λ t. (text_eq t (codes "project.metadata") && true) ≡ false) project valid.project in
      ground (arith, same, lacks)

  wire_of-entity_type : (r : SyncRecord) → (wire_of p r).entity_type ≡ r.entity_type
  unfolding wire_of
  wire_of-entity_type r = refl

  wire_of-clean :
      (r : SyncRecord)
      → is_barred p r.entity_type (payload_json p r.payload) ≡ false
      → payload_has_secret_keys (wire_of p r).payload ≡ false
  unfolding wire_of is_barred payload_has_secret_keys
  wire_of-clean r e = elim (Bool-cases (is_sync_tombstone r)) [
    | inl dead ↦ ground arith
    | inr live ↦ ground arith
  ]

  gated-Sendable :
      (r : SyncRecord) (w : WireSyncRecord)
      → gated p r ≡ some w
      → (w.entity_type ≡ r.entity_type) × Sendable p.stringify w
  unfolding gated canonical_to_wire wire_of
  gated-Sendable r w e = elim (Bool-cases (is_barred p r.entity_type (payload_json p r.payload))) [
    | inl barred ↦ absurd (ground arith)
    | inr free ↦
        elim (Option-cases (validate_sync_record_shape p.date_parse p.stringify (wire_of p r))) [
          | inl bad ↦ absurd (ground arith)
          | inr (v, f) ↦
              let (same, valid) =
                validate_sync_record_shape-IsValidShape p.date_parse p.stringify (wire_of p r) v
                  f in
              let here : wire_of p r ≡ w = ground arith in
              subst (λ x. (x.entity_type ≡ r.entity_type) × Sendable p.stringify x) here
                (
                  wire_of-entity_type r,
                  record {
                    shape = valid;
                    clean = wire_of-clean r free;
                    no_project = wire_of_no_project r valid;
                  },
                )
        ]
  ]

  -- A record that the outbound gate lets through stands for the candidate's entity and is fit to be sent: an
  -- object that is not too large, without secret-shaped keys. The metadata of a project is never let through.
  pub refuse_outbound-Sendable :
      (c : SyncRecord) (w : WireSyncRecord)
      → refuse_outbound p c ≡ some w
      → (w.entity_type ≡ c.entity_type) × Sendable p.stringify w
  unfolding refuse_outbound
  refuse_outbound-Sendable c w e = elim (Option-cases (parse_sync_record c)) [
    | inl bad ↦ absurd (ground arith)
    | inr (r, f) ↦
        let (kind, fit_to_send) = gated-Sendable r w (ground arith) in
        (kind ∙ (parse_sync_record_kept c r f).0, fit_to_send)
  ]
