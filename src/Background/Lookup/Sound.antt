-- ===== src/Background/Lookup/Sound.antt =====
-- What every call of background-task-manager.ts owes its manager, through its guards.
use ai_desktop.Base.{
  ◌≡◌, refl, ◌⊎◌, inl, inr, Bool, true, false, Option, none, some, Text, arith, if◌then◌else◌,
  text_eq_iff,
}
use ai_desktop.Base.Dict
use ai_desktop.Secrets.{has_secrets}
use ai_desktop.Background.Task.{BackgroundTaskErrorCode}
use ai_desktop.Background.Manager.{BackgroundEntry, BackgroundTaskManager}
use ai_desktop.Background.Manager.Progress.{Good, Good-refl}
use ai_desktop.Background.Lookup.{
  Unknown, string, not_string, Found, entry, refused, err, lookup, key_of, Answer, refuse, answer,
  on_found, vet,
}

-- Tasks move legally and within the slots, and an error leaves everything as it was.
pub record Sound (m : BackgroundTaskManager) (a : Answer) : Type 0 where
  pub moves : Good m a.1
  pub unchanged : (code : BackgroundTaskErrorCode) → a.0 ≡ err code → a.1 ≡ m

pub refuse-Sound :
    (code : BackgroundTaskErrorCode) (m : BackgroundTaskManager) → Sound m (refuse code m)
unfolding refuse
refuse-Sound code m = record { moves = Good-refl m; unchanged = λ c h. refl }

pub answer-Sound :
    (k : Text) (e : BackgroundEntry) (m n : BackgroundTaskManager)
    → Good m n
    → Sound m (answer k e n)
unfolding answer
answer-Sound k e m n g = record { moves = g; unchanged = λ c h. cc }

pub Sound-if :
    {m : BackgroundTaskManager} (b : Bool) (x y : Answer)
    → (b ≡ true → Sound m x)
    → (b ≡ false → Sound m y)
    → Sound m (if b then x else y)
Sound-if true x y f g = f refl
Sound-if false x y f g = g refl

-- What is found is the entry under that key, in that project.
pub lookup_entry :
    (id : Unknown) (p : Text) (m : BackgroundTaskManager) (e : BackgroundEntry)
    → lookup id p m ≡ entry e
    → (Dict.get (key_of id) m.entries ≡ some e) × (e.project_id ≡ p)
unfolding lookup key_of
lookup_entry not_string p m e h = cc
lookup_entry (string id) p m e h = ground (arith, text_eq_iff e.project_id p)

pub Found-cases :
    (f : Found)
    → ((e : BackgroundEntry) × (f ≡ entry e)) ⊎ ((c : BackgroundTaskErrorCode) × (f ≡ refused c))
Found-cases (entry e) = inl (e, refl)
Found-cases (refused c) = inr (c, refl)

pub on_found-Sound :
    (id : Unknown) (p : Text) (m : BackgroundTaskManager) (call : Text → BackgroundEntry → Answer)
    → ((k : Text) (e : BackgroundEntry) → Dict.get k m.entries ≡ some e → Sound m (call k e))
    → Sound m (on_found id p m call)
unfolding on_found
on_found-Sound id p m call f = elim (Found-cases (lookup id p m)) [
  | inl (e, h) ↦ rw (h, on_found) (f (key_of id) e ((lookup_entry id p m e h).0))
  | inr (c, h) ↦ rw (h, on_found) (refuse-Sound c m)
]

pub vet-Sound :
    (d : Option Unknown) (next : Option Text → Answer) (m : BackgroundTaskManager)
    → ((r : Option Text) → Sound m (next r))
    → Sound m (vet d next m)
unfolding vet
vet-Sound none next m f = f none
vet-Sound (some not_string) next m f = refuse-Sound BackgroundTaskErrorCode.validation_error m
vet-Sound (some (string s)) next m f =
    Sound-if (has_secrets s) (refuse BackgroundTaskErrorCode.secret_refused m) (next (some s))
      (λ t. refuse-Sound BackgroundTaskErrorCode.secret_refused m) (λ t. f (some s))
