-- ===== src/Control/Monitor/Warnings/Count.antt =====
-- How many popups `check_and_send_warnings` shows.
use kid_pc_monitor.Base.{
  ℕ, ◌+◌, ◌≤◌, ◌<◌, ◌≡◌, ◌⊎◌, refl, ap, ◌∙◌, Bool, true, false, not, Option, none, some, List, [],
  ◌∷◌, arith, ltb, if◌then◌else◌,
}
use kid_pc_monitor.Base.Text.{Text}
use kid_pc_monitor.Clock.{Time}
use kid_pc_monitor.Policy.{usage_period_date}
use kid_pc_monitor.Control.{Control, Effect, lock_workstation, show_message, shutdown, show}
use kid_pc_monitor.Control.{Answer, answers, raises, get_time_remaining}
use kid_pc_monitor.Control.Monitor.{
  Readings, Outcome, was_sent, add_sent, add_larger, due_warning, warning_minutes, send_due, warn,
  check_and_send_warnings,
}
use kid_pc_monitor.Control.Monitor.Warnings.{
  was_sent-add_sent, due_warning_lem, marked, rolled_over,
}

-- What was sent stays sent.
was_sent-add_larger :
    (k m : ℕ) (ks l : List ℕ) → was_sent k l ≡ true → was_sent k (add_larger m ks l) ≡ true
unfolding add_larger
was_sent-add_larger k m [] l h = h
was_sent-add_larger k m (j ∷ ks) l h =
    was_sent-add_larger k m ks (if ltb m j then add_sent j l else l)
      (ground (arith, was_sent-add_sent k j l))

-- One for each interval of the source that was not sent.
abbrev one_if : Bool → ℕ
one_if true = 1
one_if false = 0

abbrev pub unsent : List ℕ → ℕ
unsent l =
    one_if (not (was_sent 1 l))
    + one_if (not (was_sent 5 l))
    + one_if (not (was_sent 15 l))
    + one_if (not (was_sent 30 l))

unsent-le : (l : List ℕ) → unsent l ≤ 4
unsent-le l = ground arith

due_warning_interval :
    (remaining : ℕ) (sent : List ℕ) (m : ℕ)
    → due_warning remaining sent warning_minutes ≡ some m
    → (m ≡ 1) ⊎ ((m ≡ 5) ⊎ ((m ≡ 15) ⊎ (m ≡ 30)))
unfolding due_warning
due_warning_interval remaining sent m e = ground arith

marked_keeps :
    (k m : ℕ) (sent : List ℕ) → was_sent k sent ≡ true → was_sent k (marked m sent) ≡ true
marked_keeps k m sent h =
    was_sent-add_larger k m warning_minutes (add_sent m sent)
      (ground (arith, was_sent-add_sent k m sent))

marked_self : (m : ℕ) (sent : List ℕ) → was_sent m (marked m sent) ≡ true
marked_self m sent =
    was_sent-add_larger m m warning_minutes (add_sent m sent)
      (ground (arith, was_sent-add_sent m m sent))

-- Marking an interval that was not sent leaves fewer.
marked-unsent :
    (m : ℕ) (sent : List ℕ)
    → (m ≡ 1) ⊎ ((m ≡ 5) ⊎ ((m ≡ 15) ⊎ (m ≡ 30)))
    → was_sent m sent ≡ false
    → unsent (marked m sent) < unsent sent
marked-unsent m sent i h = ground (
  arith,
  marked_self m sent,
  marked_keeps 1 m sent,
  marked_keeps 5 m sent,
  marked_keeps 15 m sent,
  marked_keeps 30 m sent,
)

-- The popups among the effects.
abbrev pub popups : List Effect → ℕ
popups [] = 0
popups (lock_workstation ∷ es) = popups es
popups (show_message m t ∷ es) = popups es + 1
popups (shutdown s ∷ es) = popups es

-- A popup that was shown uses up at least one interval; one that failed changes nothing.
abbrev Spends : Control → Outcome → Type 0
Spends c o =
    popups o.0.effects + unsent o.0.warnings_sent ≤ popups c.effects + unsent c.warnings_sent

send_due-Spends :
    (shown : Answer (Unit {0})) (remaining : ℕ) (due : Option ℕ) (c : Control)
    → due_warning remaining c.warnings_sent warning_minutes ≡ due
    → Spends c (send_due shown remaining due c)
unfolding show
send_due-Spends shown remaining none c e = omega arith
send_due-Spends (raises x) remaining (some m) c e = omega arith
send_due-Spends (answers x) remaining (some m) c e = omega (
  arith,
  marked-unsent m c.warnings_sent (due_warning_interval remaining c.warnings_sent m e)
      (due_warning_lem remaining c.warnings_sent warning_minutes m e).0,
)

warn-Spends :
    (shown : Answer (Unit {0})) (remaining : Option ℕ) (c : Control)
    → Spends c (warn shown remaining c)
warn-Spends shown none c = omega arith
warn-Spends shown (some remaining) c = ground (
  arith,
  send_due-Spends shown remaining (due_warning remaining c.warnings_sent warning_minutes) c refl,
)

module _ (allowance_label : ℕ → Text) where
  check-Spends :
      (r : Readings) (c : Control)
      → Spends (rolled_over r c) (check_and_send_warnings allowance_label r c)
  unfolding check_and_send_warnings
  check-Spends r c =
      warn-Spends r.shown (get_time_remaining allowance_label (rolled_over r c) r.warn_again)
        (rolled_over r c)

  check-frame :
      (r : Readings) (c : Control)
      → let c' = (check_and_send_warnings allowance_label r c).0 in
        (c'.daily.wake_time ≡ c.daily.wake_time)
        × (c'.warnings_date ≡ (rolled_over r c).warnings_date)
  unfolding check_and_send_warnings show
  check-frame r c = ground arith

rolled_over_same :
    (r : Readings) (c : Control) (day : ℕ)
    → usage_period_date r.warn_now c.daily.wake_time ≡ day
    → c.warnings_date ≡ day
    → rolled_over r c ≡ c
rolled_over_same r c day u d = ground arith

-- The loop's calls, in which the parent does nothing.
unfoldable pub run_warnings : (ℕ → Text) → List Readings → Control → Control
run_warnings label [] c = c
run_warnings label (r ∷ rs) c = run_warnings label rs (check_and_send_warnings label r c).0

-- All readings fall into the usage period `day`.
abbrev pub InPeriod : ℕ → Time → List Readings → Type 0
InPeriod day wake [] = Unit
InPeriod day wake (r ∷ rs) = (usage_period_date r.warn_now wake ≡ day) × InPeriod day wake rs

module _ (allowance_label : ℕ → Text) (day : ℕ) (wake : Time) where
  check_keeps :
      (r : Readings) (c : Control)
      → c.daily.wake_time ≡ wake
      → c.warnings_date ≡ day
      → usage_period_date r.warn_now wake ≡ day
      → let c' = (check_and_send_warnings allowance_label r c).0 in
        (c'.daily.wake_time ≡ wake)
        × (c'.warnings_date ≡ day)
        × (popups c'.effects + unsent c'.warnings_sent ≤ popups c.effects + unsent c.warnings_sent)
  check_keeps r c w d u =
      let same = rolled_over_same r c day (ap (usage_period_date r.warn_now) w ∙ u) d in
      let f = check-frame allowance_label r c in
      (
        f.0 ∙ w,
        f.1 ∙ ap (λ (x : Control). x.warnings_date) same ∙ d,
        rw same at (check-Spends allowance_label r c),
      )

  run-Spends :
      (rs : List Readings) (c : Control)
      → c.daily.wake_time ≡ wake
      → c.warnings_date ≡ day
      → InPeriod day wake rs
      → popups (run_warnings allowance_label rs c).effects
        ≤ popups c.effects + unsent c.warnings_sent
  unfolding run_warnings
  run-Spends [] c w d u = omega arith
  run-Spends (r ∷ rs) c w d u =
      let k = check_keeps r c w d u.0 in
      omega (arith, run-Spends rs (check_and_send_warnings allowance_label r c).0 k.0 k.1 u.1, k.2)

-- Within one usage period, without a parent's action, at most four popups are shown, however often
-- the loop checks and whatever the time left does.
pub run_warnings-popups_le_four :
    (allowance_label : ℕ → Text) (c : Control) (rs : List Readings)
    → InPeriod c.warnings_date c.daily.wake_time rs
    → popups (run_warnings allowance_label rs c).effects ≤ popups c.effects + 4
run_warnings-popups_le_four label c rs u = omega (
  arith,
  run-Spends label c.warnings_date c.daily.wake_time rs c refl refl u,
  unsent-le c.warnings_sent,
)
