-- ===== src/Background/Manager/Progress.antt =====
-- How tasks may move: along the legal transitions, in one project, and within the slots.
use ai_desktop.Base.{
  ◌≤◌, ◌≡◌, refl, sym, ap, ◌∙◌, inl, inr, Bool, true, false, Option, some, List, Text, arith,
  if◌then◌else◌, text_eq, text_eq_iff, subst, Bool-cases,
}
use ai_desktop.Base.Dict
use ai_desktop.Background.Task.{
  BackgroundTaskStatus, BackgroundEventType, is_legal_background_transition,
}
use ai_desktop.Background.Manager.{
  BackgroundEntry, BackgroundTaskManager, Effect, is_terminal, holds_slot, holds_slot_of,
  active_count, active_count_for_project, can_launch, update, log, commit,
}

-- Zero or more legal transitions.
pub data Reaches (s : BackgroundTaskStatus) : BackgroundTaskStatus → Type 0 where
  here : Reaches s s
  next :
      {t u : BackgroundTaskStatus}
      → Reaches s t
      → is_legal_background_transition t u ≡ true
      → Reaches s u

pub Reaches-trans : {s t u : BackgroundTaskStatus} → Reaches s t → Reaches t u → Reaches s u
Reaches-trans r here = r
Reaches-trans r (next q l) = next (Reaches-trans r q) l

-- The slots in use are within the caps.
pub record Caps (m : BackgroundTaskManager) : Type 0 where
  pub total : active_count m ≤ m.max_tasks
  pub project : (p : Text) → active_count_for_project p m ≤ m.max_per_project

-- What became of an entry.
pub record Evolved (e : BackgroundEntry) (o : Option BackgroundEntry) : Type 0 where
  pub after : BackgroundEntry
  pub present : o ≡ some after
  pub legal : Reaches e.rec.status after.rec.status
  pub bound : after.project_id ≡ e.project_id

-- No entry is lost, each moves along legal transitions and stays in its project; caps are kept.
pub record Good (m m' : BackgroundTaskManager) : Type 0 where
  pub evolves :
      (k : Text) (e : BackgroundEntry)
      → Dict.get k m.entries ≡ some e
      → Evolved e (Dict.get k m'.entries)
  pub caps : Caps m → Caps m'

pub Good-refl : (m : BackgroundTaskManager) → Good m m
Good-refl m = record {
  evolves = λ k e h. record { after = e; present = h; legal = here; bound = refl };
  caps = λ c. c;
}

pub Good-trans : {m n o : BackgroundTaskManager} → Good m n → Good n o → Good m o
Good-trans g h = record {
  evolves = λ k e p.
      let first = g.evolves k e p in
      let second = h.evolves k first.after first.present in
      record {
        after = second.after;
        present = second.present;
        legal = Reaches-trans first.legal second.legal;
        bound = second.bound ∙ first.bound;
      };
  caps = λ c. h.caps (g.caps c);
}

-- Both branches of a test.
pub Good-if :
    {m : BackgroundTaskManager} (b : Bool) (n o : BackgroundTaskManager)
    → (b ≡ true → Good m n)
    → (b ≡ false → Good m o)
    → Good m (if b then n else o)
Good-if true n o g h = g refl
Good-if false n o g h = h refl

log-Caps : (es : List Effect) {m : BackgroundTaskManager} → Caps m → Caps (log es m)
unfolding log active_count active_count_for_project
log-Caps es c = record { total = c.total; project = c.project }

pub log-Good : (es : List Effect) {m n : BackgroundTaskManager} → Good m n → Good m (log es n)
unfolding log
log-Good es g = record { evolves = g.evolves; caps = λ c. log-Caps es (g.caps c) }

same_entry : {e x : BackgroundEntry} → some e ≡ some x → e ≡ x
same_entry h = cc

-- A write of one entry that moves it legally, in its project.
pub update-evolves :
    (k : Text) (e e' : BackgroundEntry) (m : BackgroundTaskManager)
    → Dict.get k m.entries ≡ some e
    → Reaches e.rec.status e'.rec.status
    → e'.project_id ≡ e.project_id
    → (j : Text) (x : BackgroundEntry) → Dict.get j m.entries ≡ some x
    → Evolved x (Dict.get j (update k e' m).entries)
unfolding update
update-evolves k e e' m h r b j x p = elim (Bool-cases (text_eq k j)) [
  | inl same ↦
      let at_k : k ≡ j = (text_eq_iff k j).0 same in
      let is_e : e ≡ x = same_entry (sym h ∙ ap (λ i. Dict.get i m.entries) at_k ∙ p) in
      record {
        after = e';
        present = Dict.get-set k j e' m.entries ∙ rw same;
        legal = subst (λ y. Reaches y.rec.status e'.rec.status) is_e r;
        bound = b ∙ ap (λ y. y.project_id) is_e;
      }
  | inr other ↦ record {
    after = x;
    present = Dict.get-set k j e' m.entries ∙ rw other p;
    legal = here;
    bound = refl;
  }
]

one_le : (a b : Bool) → (b ≡ true → a ≡ true) → (if b then 1 else 0) ≤ (if a then 1 else 0)
one_le a true h = rw (h refl) (omega arith)
one_le a false h = omega arith

update-Caps :
    (k : Text) (e e' : BackgroundEntry) (m : BackgroundTaskManager)
    → Dict.get k m.entries ≡ some e
    → (holds_slot e' ≡ true → holds_slot e ≡ true)
    → e'.project_id ≡ e.project_id
    → Caps m
    → Caps (update k e' m)
unfolding update active_count active_count_for_project
update-Caps k e e' m h slot b c = record {
  total = omega (arith, Dict.count-set holds_slot k e e' m.entries h, one_le _ _ slot, c.total);
  project = λ p. omega (
    arith,
    Dict.count-set (holds_slot_of p) k e e' m.entries h,
    one_le (holds_slot_of p e) (holds_slot_of p e') (of_project p),
    c.project p,
  );
}
  where
    of_project : (p : Text) → holds_slot_of p e' ≡ true → holds_slot_of p e ≡ true
    of_project p t = rw (← b) (ground (arith, slot (ground arith)))

-- A write that takes no slot.
pub update-Good :
    (k : Text) (e e' : BackgroundEntry) (m : BackgroundTaskManager)
    → Dict.get k m.entries ≡ some e
    → Reaches e.rec.status e'.rec.status
    → e'.project_id ≡ e.project_id
    → (holds_slot e' ≡ true → holds_slot e ≡ true)
    → Good m (update k e' m)
update-Good k e e' m h r b slot = record {
  evolves = update-evolves k e e' m h r b;
  caps = update-Caps k e e' m h slot b;
}

pub commit-Good :
    (k : Text) (type : BackgroundEventType) (e e' : BackgroundEntry) (m : BackgroundTaskManager)
    → Dict.get k m.entries ≡ some e
    → is_legal_background_transition e.rec.status e'.rec.status ≡ true
    → e'.project_id ≡ e.project_id
    → (holds_slot e' ≡ true → holds_slot e ≡ true)
    → Good m (commit k type e' m)
unfolding commit
commit-Good k type e e' m h legal b slot =
    log-Good _ (update-Good k e e' m h (next here legal) b slot)

-- A write that takes a free slot.
pub launched-Caps :
    (k : Text) (e e' : BackgroundEntry) (m : BackgroundTaskManager)
    → Dict.get k m.entries ≡ some e
    → can_launch e.project_id m ≡ true
    → e'.project_id ≡ e.project_id
    → holds_slot e ≡ false
    → Caps m
    → Caps (update k e' m)
unfolding update active_count active_count_for_project can_launch
launched-Caps k e e' m h free b slot c = record {
  total = ground (arith, Dict.count-set holds_slot k e e' m.entries h, c.total);
  project = λ p. ground (
    arith,
    Dict.count-set (holds_slot_of p) k e e' m.entries h,
    text_eq_iff e.project_id p,
    c.project p,
  );
}

no_way_out :
    (s t : BackgroundTaskStatus) → is_terminal s ≡ true → is_legal_background_transition s t ≡ false
no_way_out BackgroundTaskStatus.completed t h = refl
no_way_out BackgroundTaskStatus.failed t h = refl
no_way_out BackgroundTaskStatus.cancelled t h = refl
no_way_out _ t h = cc

-- A task that has ended stays where it is.
pub Reaches-terminal : {s t : BackgroundTaskStatus} → Reaches s t → is_terminal s ≡ true → t ≡ s
Reaches-terminal here h = refl
Reaches-terminal {s = s} (next {t = t} {u = u} r l) h =
    ground (arith, Reaches-terminal r h, no_way_out s u h)
