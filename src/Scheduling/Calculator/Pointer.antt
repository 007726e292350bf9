-- ===== src/Scheduling/Calculator/Pointer.antt =====
-- The pointer of schedule-calculator.ts to the next run: `nextPointerAfterNow`.
use ai_desktop.Base.{ℕ, suc, ◌+◌, ◌*◌, ◌≤◌, ◌≡◌, ◌⊎◌, Option, some, Text}
use ai_desktop.Scheduling.Contract.{ScheduleConfig, Intl}
use ai_desktop.Scheduling.Calculator.{OccurrenceQuery}
use ai_desktop.Scheduling.Calculator.Wall.{NextOccurrence}

module _ (intl : Intl) (date_parse : Text → Option ℕ) (floor : Option ℕ) (q : OccurrenceQuery)
    (anchor now : ℕ) where
  -- What the pointer points at: the fire time of a one-shot schedule, the first time of an interval's grid
  -- after now, the next occurrence of a daily or weekly schedule.
  abbrev pub Pointed : ScheduleConfig → ℕ → Type 0
  Pointed (ScheduleConfig.once run_at) t = date_parse run_at ≡ some t
  Pointed (ScheduleConfig.delay ms) t =
      (created : ℕ) × (q.created_at_ms ≡ some created) × (t ≡ created + ms)
  Pointed (ScheduleConfig.interval ms) t =
      (k : ℕ) × (t ≡ anchor + suc k * ms) × ((k ≡ 0) ⊎ (anchor + k * ms ≤ now))
  Pointed config t = NextOccurrence intl q.timezone config now t
