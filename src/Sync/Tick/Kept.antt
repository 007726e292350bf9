-- ===== src/Sync/Tick/Kept.antt =====
-- sync-engine.ts: what a tick keeps of the store and of the other side, and the merge in it.
use ai_desktop.Base.{
  ℕ, suc, ◌≡◌, refl, subst, some, List, [], ◌∷◌, Text, inl, inr, ◌⊎◌, arith, Bool-cases,
  Option-cases, any, ltb, ◌==◌,
}
use ai_desktop.Base.Dict
use ai_desktop.Sync.Conflict.{
  SyncRecord, SyncConflictResolution, explicit, auto_mergeable, classify_sync_conflict,
}
use ai_desktop.Sync.Transport.{WireSyncRecord, SyncTransport}
use ai_desktop.Sync.Engine.{SyncPlatform, same_envelope, merge_key}
use ai_desktop.Sync.Engine.Gates.{Sendable}
use ai_desktop.Sync.Engine.Inbound.{Appliable}
use ai_desktop.Sync.Merge.{
  SyncConflict, SyncEngineLocalStore, SyncEngine, keep, apply, save_explicit, merge_divergent,
  merge_known, merge_remote, build_sync_conflict, is_duplicate, remote_wins,
}
use ai_desktop.Sync.Tick.{}

-- What holds of the store, and of the other side.
pub record Kept {S T : Type 0} (J : S → Type 0) (I : T → Type 0) (e : SyncEngine S T) : Type 0 where
  pub stored : J e.store
  pub sided : I e.transport

pub carry :
    {S T : Type 0} {J : S → Type 0} {I : T → Type 0} {m n : SyncEngine S T}
    → Kept J I m
    → m ≡ n
    → Kept J I n
carry k e = subst (Kept _ _) e k

module _ {S : Type 0} (p : SyncPlatform) (port : SyncEngineLocalStore S) where
  -- The store keeps this, whatever the engine writes, if all that is applied is fit for it.
  pub record StoreKept (J : S → Type 0) : Type 0 where
    pub clean : (rs : List SyncRecord) (s s' : S) → port.mark_clean rs s ≡ some s' → J s → J s'
    pub apply :
        (r : SyncRecord) (s s' : S) → Appliable p r → port.apply_remote r s ≡ some s' → J s → J s'
    pub cursor : (c : Text) (s s' : S) → port.set_cursor c s ≡ some s' → J s → J s'
    pub conflict : (c : SyncConflict) (s s' : S) → port.save_conflict c s ≡ some s' → J s → J s'

module _ (p : SyncPlatform) where
  abbrev pub EverySendable : List WireSyncRecord → Type 0
  EverySendable [] = Unit
  EverySendable (w ∷ ws) = Sendable p.stringify w × EverySendable ws

module _ {T : Type 0} (p : SyncPlatform) (side : SyncTransport T) (account_id : Text) where
  -- The other side keeps this, if all that is pushed is fit to be sent.
  pub record SideKept (I : T → Type 0) : Type 0 where
    pub push :
        (ws : List WireSyncRecord) (t : T)
        → EverySendable p ws
        → I t
        → I (side.push account_id ws t).0
    pub pull : (cursor : Text) (limit : ℕ) (t : T) → I t → I (side.pull account_id cursor limit t).0

module _ {S T : Type 0} (p : SyncPlatform) (port : SyncEngineLocalStore S) (J : S → Type 0)
    (I : T → Type 0) (ks : StoreKept p port J) where
  apply-Kept :
      (now : ℕ) (r : SyncRecord) (e : SyncEngine S T)
      → Appliable p r
      → Kept J I e
      → Kept J I (apply p port now r e).0
  unfolding apply keep
  apply-Kept now r e good k = elim (Option-cases (port.apply_remote r e.store)) [
    | inl fails ↦ carry k (ground arith)
    | inr (s, h) ↦
        let k' : Kept J I (keep p port now r (record e { store = s })) = record {
          stored = ks.apply r e.store s good h k.stored;
          sided = k.sided;
        } in
        carry k' (ground arith)
  ]

  save_explicit-Kept :
      (now : ℕ) (local remote : SyncRecord) (e : SyncEngine S T)
      → Kept J I e
      → Kept J I (save_explicit p port now local remote e).0
  unfolding save_explicit
  save_explicit-Kept now local remote e k =
      elim (Option-cases (build_sync_conflict p e.minted local remote (p.to_iso now))) [
        | inl fails ↦ carry k (ground arith)
        | inr (c, h) ↦ elim (Option-cases (port.save_conflict c e.store)) [
          | inl fails ↦ carry k (ground arith)
          | inr (s, g) ↦
              let k' : Kept J I (record e { store = s; minted = suc e.minted }) = record {
                stored = ks.conflict c e.store s g k.stored;
                sided = k.sided;
              } in
              carry k' (ground arith)
        ]
      ]

  SyncConflictResolution-cases :
      (x : SyncConflictResolution) → (x ≡ explicit) ⊎ (x ≡ auto_mergeable)
  SyncConflictResolution-cases explicit = inl refl
  SyncConflictResolution-cases auto_mergeable = inr refl

  merge_divergent-Kept :
      (now : ℕ) (cs : List SyncConflict) (local remote : SyncRecord) (e : SyncEngine S T)
      → Appliable p remote
      → Kept J I e
      → Kept J I (merge_divergent p port now cs local remote e).0
  unfolding merge_divergent
  merge_divergent-Kept now cs local remote e good k =
      elim (SyncConflictResolution-cases (classify_sync_conflict local remote)) [
        | inl explicit_one ↦ elim (Bool-cases (any (is_duplicate local remote) cs)) [
          | inl known_one ↦ carry k (ground arith)
          | inr new ↦ carry (save_explicit-Kept now local remote e k) (ground arith)
        ]
        | inr scalar ↦ elim (Bool-cases (remote_wins local remote)) [
          | inl wins ↦ carry (apply-Kept now remote e good k) (ground arith)
          | inr loses ↦ carry k (ground arith)
        ]
      ]

  merge_known-Kept :
      (now : ℕ) (cs : List SyncConflict) (local remote : SyncRecord) (e : SyncEngine S T)
      → Appliable p remote
      → Kept J I e
      → Kept J I (merge_known p port now cs local remote e).0
  unfolding merge_known
  merge_known-Kept now cs local remote e good k = elim (Bool-cases (same_envelope p local remote)) [
    | inl same ↦ carry k (ground arith)
    | inr differs ↦ elim (Bool-cases (remote.version == local.version)) [
      | inl level ↦ carry (merge_divergent-Kept now cs local remote e good k) (ground arith)
      | inr apart ↦ elim (Bool-cases (ltb local.version remote.version)) [
        | inl newer ↦ carry (apply-Kept now remote e good k) (ground arith)
        | inr older ↦ carry k (ground arith)
      ]
    ]
  ]

  pub merge_remote-Kept :
      (now : ℕ) (cs : List SyncConflict) (remote : SyncRecord) (e : SyncEngine S T)
      → Appliable p remote
      → Kept J I e
      → Kept J I (merge_remote p port now cs remote e).0
  unfolding merge_remote
  merge_remote-Kept now cs remote e good k =
      elim (Option-cases (Dict.get (merge_key remote) e.known)) [
        | inl new ↦ carry (apply-Kept now remote e good k) (ground arith)
        | inr (local, h) ↦ carry (merge_known-Kept now cs local remote e good k) (ground arith)
      ]
