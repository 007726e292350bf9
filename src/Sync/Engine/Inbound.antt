-- ===== src/Sync/Engine/Inbound.antt =====
-- sync-engine.ts: what its inbound gate lets through.
use ai_desktop.Base.{
  ℕ, ◌≡◌, refl, sym, ◌∙◌, subst, true, Option, none, some, Text, codes, ◌⊎◌, inl, inr, text_eq,
  text_eq_refl, arith, Bool-cases, Option-cases,
}
use ai_desktop.Sync.Conflict.{SyncRecord}
use ai_desktop.Sync.Payload.{JsonValue, JsonFields, null, boolean, number, string, array, object}
use ai_desktop.Sync.Payload.Fields.{IsInert, set_field-IsInert}
use ai_desktop.Sync.Transport.{WireSyncRecord, is_valid_payload, validate_sync_record_shape}
use ai_desktop.Sync.Engine.{
  SyncPlatform, admitted, parse_sync_record, wire_to_canonical_fields, inert_payload,
  sanitize_inbound_schedule, validate_inbound, is_barred,
}
use ai_desktop.Sync.Transport.Shape.{validate_sync_record_shape-IsValidShape}

module _ (p : SyncPlatform) where
  -- A record that may be applied: a schedule is switched off and has no runs, unless it is deleted.
  abbrev pub Appliable : SyncRecord → Type 0
  Appliable r =
      r.entity_type ≡ codes "schedule.definition"
      → (r.payload ≡ none)
        ⊎ ((fs : JsonFields) × (r.payload ≡ some (p.stringify (object fs))) × IsInert fs)

  off_payload : Option Text → JsonValue → Option Text
  off_payload none v = none
  off_payload (some t) v = some (p.stringify (inert_payload p v))

  sanitize-payload :
      (r : SyncRecord) (v : JsonValue)
      → r.entity_type ≡ codes "schedule.definition"
      → (sanitize_inbound_schedule p r v).payload ≡ off_payload r.payload v
  unfolding sanitize_inbound_schedule off_payload
  sanitize-payload r v e =
      let same =
        subst (λ t. text_eq t (codes "schedule.definition") ≡ true) (sym e)
          (text_eq_refl (codes "schedule.definition")) in
      elim (Option-cases r.payload) [
        | inl missing ↦ ground (arith, same)
        | inr (t, f) ↦ ground (arith, same)
      ]

  sanitize-entity_type :
      (r : SyncRecord) (v : JsonValue)
      → (sanitize_inbound_schedule p r v).entity_type ≡ r.entity_type
  unfolding sanitize_inbound_schedule
  sanitize-entity_type r v =
      elim (Bool-cases (text_eq r.entity_type (codes "schedule.definition"))) [
        | inl yes_it_is ↦ ground arith
        | inr other ↦ ground arith
      ]

  off_payload-IsInert :
      (payload : Option Text) (v : JsonValue)
      → (payload ≡ none) ⊎ (is_valid_payload p.stringify v ≡ true)
      → (off_payload payload v ≡ none)
        ⊎ ((fs : JsonFields) × (off_payload payload v ≡ some (p.stringify (object fs)))
            × IsInert fs)
  unfolding off_payload inert_payload is_valid_payload
  off_payload-IsInert none v h = inl refl
  off_payload-IsInert (some t) v (inl h) = cc
  off_payload-IsInert (some t) (object fs) (inr h) = inr (_, refl, set_field-IsInert fs)
  off_payload-IsInert (some t) null (inr h) = cc
  off_payload-IsInert (some t) (boolean b) (inr h) = cc
  off_payload-IsInert (some t) (number n) (inr h) = cc
  off_payload-IsInert (some t) (string n) (inr h) = cc
  off_payload-IsInert (some t) (array xs) (inr h) = cc

  sanitize-Appliable :
      (r : SyncRecord) (v : JsonValue)
      → (r.payload ≡ none) ⊎ (is_valid_payload p.stringify v ≡ true)
      → Appliable (sanitize_inbound_schedule p r v)
  sanitize-Appliable r v h e =
      let this = sanitize-payload r v (sym (sanitize-entity_type r v) ∙ e) in
      subst
        (λ x. (x ≡ none) ⊎ ((fs : JsonFields) × (x ≡ some (p.stringify (object fs))) × IsInert fs))
        (sym this) (off_payload-IsInert r.payload v h)

  admitted-Appliable :
      (q : SyncRecord) (v : JsonValue) (r : SyncRecord)
      → admitted p q v ≡ some r
      → (q.payload ≡ none) ⊎ (is_valid_payload p.stringify v ≡ true)
      → Appliable r
  unfolding admitted
  admitted-Appliable q v r e h = elim (Bool-cases (is_barred p q.entity_type v)) [
    | inl barred ↦ absurd (ground arith)
    | inr free ↦
        let same : sanitize_inbound_schedule p q v ≡ r = ground arith in
        subst (λ x. Appliable x) same (sanitize-Appliable q v h)
  ]

  abbrev read_payload : Option Text → WireSyncRecord → JsonValue
  read_payload none w = null
  read_payload (some t) w = w.payload

  read_payload_valid :
      (payload : Option Text) (w : WireSyncRecord)
      → is_valid_payload p.stringify w.payload ≡ true
      → (payload ≡ none) ⊎ (is_valid_payload p.stringify (read_payload payload w) ≡ true)
  read_payload_valid none w h = inl refl
  read_payload_valid (some t) w h = inr h

  -- A record that the inbound gate lets through is fit to be applied: if it defines a schedule, the schedule is
  -- switched off and has no runs, whatever came over the wire.
  pub validate_inbound-Appliable :
      (n : ℕ) (candidate : Option WireSyncRecord) (r : SyncRecord)
      → validate_inbound p n candidate ≡ some r
      → Appliable r
  unfolding validate_inbound
  validate_inbound-Appliable n none r e = cc
  validate_inbound-Appliable n (some candidate) r e =
      elim (Option-cases (validate_sync_record_shape p.date_parse p.stringify candidate)) [
        | inl bad ↦ absurd (ground arith)
        | inr (w, f) ↦ elim (Option-cases (parse_sync_record (wire_to_canonical_fields p n w))) [
          | inl bad ↦ absurd (ground arith)
          | inr (q, g) ↦
              let (same, valid) =
                validate_sync_record_shape-IsValidShape p.date_parse p.stringify candidate w f in
              let good =
                subst (λ x. is_valid_payload p.stringify x.payload ≡ true) same valid.payload in
              admitted-Appliable q (read_payload q.payload w) r (ground arith)
                (read_payload_valid q.payload w good)
        ]
      ]
