-- ===== src/Sync/Merge/Newest.antt =====
-- sync-engine.ts: what `_mergeRemote` leaves in the map of known records.
use ai_desktop.Base.{
  ℕ, ◌≤◌, ◌≡◌, refl, ap, ◌∙◌, Bool, true, false, Option, none, some, List, Text, ◌⊎◌, inl, inr,
  arith, Bool-cases, Option-cases, ltb, ◌==◌, text_eq_refl, opt_eq, any,
}
use ai_desktop.Base.Dict
use ai_desktop.Sync.Conflict.{
  SyncRecord, SyncConflictResolution, explicit, auto_mergeable, classify_sync_conflict,
}
use ai_desktop.Sync.Engine.{SyncPlatform, merge_key, same_envelope}
use ai_desktop.Sync.Merge.{
  SyncConflict, SyncEngineLocalStore, SyncEngine, MergeOutcome, applied, skipped, keep, apply,
  save_explicit, merge_divergent, merge_known, merge_remote, build_sync_conflict, is_duplicate,
  remote_wins,
}

pub SyncConflictResolution-cases :
    (x : SyncConflictResolution) → (x ≡ explicit) ⊎ (x ≡ auto_mergeable)
SyncConflictResolution-cases explicit = inl refl
SyncConflictResolution-cases auto_mergeable = inr refl

opt_eq_refl : (a : Option Text) → opt_eq a a ≡ true
opt_eq_refl none = refl
opt_eq_refl (some t) = text_eq_refl t

same_envelope_refl : (p : SyncPlatform) (r : SyncRecord) → same_envelope p r r ≡ true
same_envelope_refl p r =
    ground (arith, text_eq_refl r.updated_at, text_eq_refl r.device_id, opt_eq_refl r.payload)

abbrev pub is_applied : Option MergeOutcome → Bool
is_applied (some applied) = true
is_applied _ = false

module _ {S T : Type 0} (p : SyncPlatform) (port : SyncEngineLocalStore S) (now : ℕ)
    (remote : SyncRecord) where
  -- The merge threw, or took the remote record, which is not older than the local one, or left what was
  -- known, which is not older than the remote record.
  abbrev Verdict : SyncRecord → SyncEngine S T → SyncEngine S T × Option MergeOutcome → Type 0
  Verdict local e m =
      ((m.1 ≡ none) × (m.0.known ≡ e.known))
      ⊎ (((m.1 ≡ some applied)
            × (m.0.known ≡ Dict.set (merge_key remote) remote e.known)
            × (local.version ≤ remote.version))
          ⊎ ((is_applied m.1 ≡ false) × (m.0.known ≡ e.known) × (remote.version ≤ local.version)))

  apply-known :
      (e : SyncEngine S T)
      → (((apply p port now remote e).1 ≡ none) × ((apply p port now remote e).0.known ≡ e.known))
        ⊎ (((apply p port now remote e).1 ≡ some applied)
            × ((apply p port now remote e).0.known ≡ Dict.set (merge_key remote) remote e.known))
  unfolding apply keep
  apply-known e = elim (Option-cases (port.apply_remote remote e.store)) [
    | inl fails ↦ inl (ground arith)
    | inr (s, h) ↦ inr (ground arith)
  ]

  save_explicit-known :
      (local : SyncRecord) (e : SyncEngine S T)
      → (is_applied (save_explicit p port now local remote e).1 ≡ false)
        × ((save_explicit p port now local remote e).0.known ≡ e.known)
  unfolding save_explicit
  save_explicit-known local e =
      elim (Option-cases (build_sync_conflict p e.minted local remote (p.to_iso now))) [
        | inl fails ↦ ground arith
        | inr (c, h) ↦ elim (Option-cases (port.save_conflict c e.store)) [
          | inl fails ↦ ground arith
          | inr (s, g) ↦ ground arith
        ]
      ]

  merge_divergent-Verdict :
      (cs : List SyncConflict) (local : SyncRecord) (e : SyncEngine S T)
      → remote.version ≡ local.version
      → Verdict local e (merge_divergent p port now cs local remote e)
  unfolding merge_divergent
  merge_divergent-Verdict cs local e level =
      elim (SyncConflictResolution-cases (classify_sync_conflict local remote)) [
        | inl explicit_one ↦ elim (Bool-cases (any (is_duplicate local remote) cs)) [
          | inl known_one ↦ inr (inr (ground arith))
          | inr new ↦ inr (inr (ground (arith, save_explicit-known local e)))
        ]
        | inr scalar ↦ elim (Bool-cases (remote_wins local remote)) [
          | inl wins ↦ elim (apply-known e) [
            | inl fails ↦ inl (ground (arith, fails))
            | inr took ↦ inr (inl (ground (arith, took)))
          ]
          | inr loses ↦ inr (inr (ground arith))
        ]
      ]

  merge_known-Verdict :
      (cs : List SyncConflict) (local : SyncRecord) (e : SyncEngine S T)
      → Verdict local e (merge_known p port now cs local remote e)
  unfolding merge_known
  merge_known-Verdict cs local e = elim (Bool-cases (same_envelope p local remote)) [
    | inl same ↦ inr (inr (ground arith))
    | inr differs ↦ elim (Bool-cases (remote.version == local.version)) [
      | inl level ↦ elim (merge_divergent-Verdict cs local e (ground arith)) [
        | inl fails ↦ inl (ground (arith, fails))
        | inr (inl took) ↦ inr (inl (ground (arith, took)))
        | inr (inr kept) ↦ inr (inr (ground (arith, kept)))
      ]
      | inr apart ↦ elim (Bool-cases (ltb local.version remote.version)) [
        | inl newer ↦ elim (apply-known e) [
          | inl fails ↦ inl (ground (arith, fails))
          | inr took ↦ inr (inl (ground (arith, took)))
        ]
        | inr older ↦ inr (inr (ground arith))
      ]
    ]
  ]

  -- A merge that returns leaves the entity of the remote record with one of the two records that were there,
  -- and that is as new as both: the version known of an entity never goes back.
  pub merge_remote-newest :
      (cs : List SyncConflict) (local : SyncRecord) (o : MergeOutcome) (e : SyncEngine S T)
      → Dict.get (merge_key remote) e.known ≡ some local
      → (merge_remote p port now cs remote e).1 ≡ some o
      → (k : SyncRecord) × (Dict.get
            (merge_key remote)
            (merge_remote p port now cs remote e).0.known
          ≡ some k)
        × ((k ≡ local) ⊎ (k ≡ remote))
        × (local.version ≤ k.version)
        × (remote.version ≤ k.version)
  unfolding merge_remote
  merge_remote-newest cs local o e here returns = elim (merge_known-Verdict cs local e) [
    | inl fails ↦ absurd (ground (arith, fails))
    | inr (inl (took, known, order)) ↦ (
      remote,
      ground (arith, known, Dict.get-set_self (merge_key remote) remote e.known),
      inr refl,
      order,
      omega arith,
    )
    | inr (inr (kept, known, order)) ↦ (local, ground (arith, known), inl refl, omega arith, order)
  ]

  merge_remote-known :
      (cs : List SyncConflict) (e : SyncEngine S T)
      → (merge_remote p port now cs remote e).1 ≡ some applied
      → (merge_remote p port now cs remote e).0.known ≡ Dict.set (merge_key remote) remote e.known
  unfolding merge_remote
  merge_remote-known cs e took = elim (Option-cases (Dict.get (merge_key remote) e.known)) [
    | inl new ↦ elim (apply-known e) [
      | inl fails ↦ absurd (ground (arith, fails))
      | inr (a, known) ↦ ground (arith, known)
    ]
    | inr (local, h) ↦ elim (merge_known-Verdict cs local e) [
      | inl fails ↦ absurd (ground (arith, fails))
      | inr (inl (a, known, order)) ↦ ground (arith, known)
      | inr (inr (kept, known, order)) ↦ absurd (ground (arith, kept))
    ]
  ]

  merge_remote-skipped :
      (cs : List SyncConflict) (e : SyncEngine S T)
      → Dict.get (merge_key remote) e.known ≡ some remote
      → merge_remote p port now cs remote e ≡ (e, some skipped)
  unfolding merge_remote merge_known
  merge_remote-skipped cs e here = ground (arith, same_envelope_refl p remote)

-- A remote record that was applied is known, and merging it again, at any time and with any conflicts on record,
-- changes nothing.
pub merge_remote-again :
    {S T : Type 0} (p : SyncPlatform) (port : SyncEngineLocalStore S) (now now' : ℕ)
    (remote : SyncRecord) (cs cs' : List SyncConflict) (e : SyncEngine S T)
    → (merge_remote p port now cs remote e).1 ≡ some applied
    → merge_remote p port now' cs' remote (merge_remote p port now cs remote e).0
      ≡ ((merge_remote p port now cs remote e).0, some skipped)
merge_remote-again p port now now' remote cs cs' e took =
    merge_remote-skipped p port now' remote cs' (merge_remote p port now cs remote e).0 (
      ap (Dict.get (merge_key remote)) (merge_remote-known p port now remote cs e took)
      ∙ Dict.get-set_self (merge_key remote) remote e.known)
