-- ===== src/Control/Monitor/Warnings.antt =====
-- `check_and_send_warnings`: which popup is shown, and how often.
pub mod Count
use mathlib.Core.Option.{some-injective}
use kid_pc_monitor.Base.{
  ℕ, ◌+◌, ◌*◌, ◌≤◌, ◌<◌, ◌≡◌, ◌⊎◌, inl, inr, refl, ap, ◌∙◌, Bool, true, false, not, ◌&&◌, ◌||◌,
  subst, Option, none, some, List, [], ◌∷◌, arith, ltb, leb, ◌==◌, if◌then◌else◌,
}
use kid_pc_monitor.Base.Text.{Text, codes}
use kid_pc_monitor.Clock.{Time}
use kid_pc_monitor.Policy.{usage_period_date}
use kid_pc_monitor.Control.{Control, Effect, lock_workstation, show_message, shutdown, show}
use kid_pc_monitor.Control.{Answer, answers, raises, get_time_remaining}
use kid_pc_monitor.Control.Monitor.{
  Readings, Outcome, was_sent, add_sent, add_larger, due_warning, warning_minutes, actual_minutes,
  warning_text, send_due, warn, check_and_send_warnings,
}

pub was_sent-add_sent :
    (k m : ℕ) (l : List ℕ) → was_sent k (add_sent m l) ≡ (k == m || was_sent k l)
unfolding add_sent was_sent
was_sent-add_sent k m l = ground arith

pub due_warning_lem :
    (remaining : ℕ) (sent ms : List ℕ) (m : ℕ)
    → due_warning remaining sent ms ≡ some m
    → (was_sent m sent ≡ false) × (remaining ≤ m * 60_000_000)
unfolding due_warning
due_warning_lem remaining sent [] m e = cc
due_warning_lem remaining sent (k ∷ ms) m e = ground (arith, due_warning_lem remaining sent ms m)

abbrev pub marked : ℕ → List ℕ → List ℕ
marked m sent = add_larger m warning_minutes (add_sent m sent)

-- The state that a call looks at: a new usage period forgets what was sent.
abbrev pub rolled_over : Readings → Control → Control
rolled_over r c =
    let today = usage_period_date r.warn_now c.daily.wake_time in
    if not (today == c.warnings_date)
    then record c { warnings_sent = []; warnings_date = today }
    else c

-- One of WARNING_INTERVALS.
abbrev pub is_interval : ℕ → Bool
is_interval k = k == 1 || (k == 5 || (k == 15 || k == 30))

-- An interval that calls for no popup: it was sent, or more time than that is left.
abbrev pub NotDue : ℕ → List ℕ → ℕ → Type 0
NotDue remaining sent k = was_sent k sent ≡ false → k * 60_000_000 < remaining

-- The popup for the interval `m` that names `n` minutes: if it is shown, `m` and the larger intervals
-- are marked besides those that were; if it fails, nothing changes.
abbrev pub Popup : Answer (Unit {0}) → ℕ → ℕ → Control → Outcome → Type 0
Popup (raises e) m n c o = o ≡ (c, some e)
Popup (answers _) m n c o =
    (o.1 ≡ none)
    × (o.0 ≡ record c {
      effects = show_message (warning_text n) (codes "Warning") ∷ c.effects;
      warnings_sent = o.0.warnings_sent;
    })
    × ((k : ℕ)
        → was_sent k o.0.warnings_sent
          ≡ (k == m || was_sent k c.warnings_sent || (ltb m k && is_interval k)))

-- What a call with `left` to go does to `c`: nothing where no time is left or no interval is due, and
-- otherwise the popup for the smallest interval that is due, with the minutes left rounded up.
abbrev pub Warned : Answer (Unit {0}) → Option ℕ → Control → Outcome → Type 0
Warned shown left c o =
    (((r : ℕ) → left ≡ some r → 0 < r → (k : ℕ) → is_interval k ≡ true → NotDue r c.warnings_sent k)
      × (o ≡ (c, none)))
    ⊎ ((r : ℕ) × (m : ℕ) × (n : ℕ) × (left ≡ some r)
        × (0 < r)
        × (is_interval m ≡ true)
        × (was_sent m c.warnings_sent ≡ false)
        × (r ≤ m * 60_000_000)
        × ((k : ℕ) → is_interval k ≡ true → k < m → NotDue r c.warnings_sent k)
        × (r ≤ n * 60_000_000)
        × (n * 60_000_000 < r + 60_000_000)
        × Popup shown m n c o)

none-NotDue :
    (remaining : ℕ) (sent : List ℕ) (k : ℕ)
    → due_warning remaining sent warning_minutes ≡ none
    → is_interval k ≡ true
    → NotDue remaining sent k
unfolding due_warning
none-NotDue remaining sent k e i u = ground arith

smaller-NotDue :
    (remaining : ℕ) (sent : List ℕ) (m k : ℕ)
    → due_warning remaining sent warning_minutes ≡ some m
    → is_interval k ≡ true
    → k < m
    → NotDue remaining sent k
unfolding due_warning
smaller-NotDue remaining sent m k e i l u = ground arith

due-is_interval :
    (remaining : ℕ) (sent : List ℕ) (m : ℕ)
    → due_warning remaining sent warning_minutes ≡ some m
    → is_interval m ≡ true
unfolding due_warning
due-is_interval remaining sent m e = ground arith

was_sent-add_larger_lem :
    (k m : ℕ) (ks l : List ℕ)
    → was_sent k (add_larger m ks l) ≡ (was_sent k l || (ltb m k && was_sent k ks))
unfolding add_larger was_sent
was_sent-add_larger_lem k m [] l = ground arith
was_sent-add_larger_lem k m (j ∷ ks) l = ground (
  arith,
  was_sent-add_larger_lem k m ks (if ltb m j then add_sent j l else l),
  was_sent-add_sent k j l,
)

was_sent-intervals : (k : ℕ) → was_sent k warning_minutes ≡ is_interval k
unfolding was_sent
was_sent-intervals k = ground arith

was_sent-marked :
    (k m : ℕ) (sent : List ℕ)
    → was_sent k (marked m sent) ≡ (k == m || was_sent k sent || (ltb m k && is_interval k))
was_sent-marked k m sent = ground (
  arith,
  was_sent-add_larger_lem k m warning_minutes (add_sent m sent),
  was_sent-add_sent k m sent,
  was_sent-intervals k,
)

actual_minutes_bounds :
    (r : ℕ)
    → 0 < r
    → (r ≤ actual_minutes r * 60_000_000) × (actual_minutes r * 60_000_000 < r + 60_000_000)
unfolding actual_minutes
actual_minutes_bounds r h = ground arith

shown-Popup :
    (shown : Answer (Unit {0})) (r m : ℕ) (c : Control)
    → Popup shown m (actual_minutes r) c (send_due shown r (some m) c)
unfolding show
shown-Popup (raises e) r m c = refl
shown-Popup (answers _) r m c = (refl, refl, (λ k. was_sent-marked k m c.warnings_sent))

send_due-Warned :
    (shown : Answer (Unit {0})) (remaining : ℕ) (due : Option ℕ) (c : Control)
    → 0 < remaining
    → due_warning remaining c.warnings_sent warning_minutes ≡ due
    → Warned shown (some remaining) c (send_due shown remaining due c)
send_due-Warned shown remaining none c h e = inl (
  (λ r p l k i.
      none-NotDue r c.warnings_sent k
        (subst (λ x. due_warning x c.warnings_sent warning_minutes ≡ none) (some-injective _ _ p) e)
        i),
  refl,
)
send_due-Warned shown remaining (some m) c h e =
    let p = due_warning_lem remaining c.warnings_sent warning_minutes m e in
    let b = actual_minutes_bounds remaining h in
    inr (
      remaining,
      m,
      actual_minutes remaining,
      refl,
      h,
      due-is_interval remaining c.warnings_sent m e,
      p.0,
      p.1,
      (λ k i l. smaller-NotDue remaining c.warnings_sent m k e i l),
      b.0,
      b.1,
      shown-Popup shown remaining m c,
    )

warn-Warned :
    (shown : Answer (Unit {0})) (left : Option ℕ) (c : Control)
    → Warned shown left c (warn shown left c)
warn-Warned shown none c = inl ((λ r p. cc), refl)
warn-Warned shown (some remaining) c = by_test (leb remaining 0) refl
  where
    by_test :
        (b : Bool)
        → leb remaining 0 ≡ b
        → Warned shown (some remaining) c (
            if b
            then (c, none)
            else send_due shown remaining (due_warning remaining c.warnings_sent warning_minutes) c)
    by_test true e = inl ((λ r p l k i u. ground (arith, e, some-injective _ _ p)), refl)
    by_test false e =
        send_due-Warned shown remaining (due_warning remaining c.warnings_sent warning_minutes) c
          (ground arith) refl

module _ (allowance_label : ℕ → Text) where
  -- After the rollover of a new usage period: a popup is shown exactly where time is left and one of
  -- the intervals of 1, 5, 15 and 30 minutes is due, that is, was not sent and is at least the time
  -- left. It is for the smallest such interval, it names the minutes left, rounded up, and that
  -- interval and the larger ones are then marked as sent. Otherwise nothing changes, nor does it
  -- where the popup fails, whose exception is the outcome.
  pub check_and_send_warnings_lem :
      (r : Readings) (c : Control)
      → Warned r.shown
          (get_time_remaining allowance_label (rolled_over r c) r.warn_again)
          (rolled_over r c)
          (check_and_send_warnings allowance_label r c)
  unfolding check_and_send_warnings
  check_and_send_warnings_lem r c =
      warn-Warned r.shown (get_time_remaining allowance_label (rolled_over r c) r.warn_again)
        (rolled_over r c)
