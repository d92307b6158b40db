-- ===== src/Control/Monitor/Persist.antt =====
-- `_persist_if_due`: the state files are never more than a minute behind.
use kid_pc_monitor.Base.{
  ◌+◌, ◌≤◌, ◌<◌, ◌≡◌, ◌⊎◌, inl, inr, refl, ap, ◌∙◌, true, false, Bool-cases, Option, none, some,
  arith,
}
use native.Mathlib.Nat.{le_refl}
use kid_pc_monitor.Clock.{DateTime, instant, minute_micros}
use kid_pc_monitor.Control.{Control, SaveAnswers, save_state}
use kid_pc_monitor.Control.Monitor.{persist_if_due, elapsed_within}

-- A save within the last minute.
within_minute :
    (last : Option DateTime) (now : DateTime)
    → elapsed_within last now ≡ true
    → (p : DateTime) × (last ≡ some p)
      × (instant p ≤ instant now)
      × (instant now < instant p + minute_micros)
within_minute none now e = cc
within_minute (some p) now e = (p, refl, ground arith, ground arith)

module _ (a : SaveAnswers) (now : DateTime) (c : Control) where
  persist_fresh : elapsed_within c.last_persist_at now ≡ true → persist_if_due a now c ≡ c
  unfolding persist_if_due
  persist_fresh e = rw e

  persist_due :
      elapsed_within c.last_persist_at now ≡ false
      → persist_if_due a now c ≡ record (save_state a c) { last_persist_at = some now }
  unfolding persist_if_due
  persist_due e = rw e

  -- After the phase the last save is at most a minute old and not in the future: either it was so
  -- before, and nothing happened, or the state was saved now (a clock that went back counts as due).
  pub persist_if_due_lem :
      let c' = persist_if_due a now c in
      (p : DateTime) × (c'.last_persist_at ≡ some p)
      × (instant p ≤ instant now)
      × (instant now < instant p + minute_micros)
      × (((c.last_persist_at ≡ some p) × (c' ≡ c))
          ⊎ ((p ≡ now) × (c' ≡ record (save_state a c) { last_persist_at = some now })))
  persist_if_due_lem = elim (Bool-cases (elapsed_within c.last_persist_at now)) [
    | inl fresh ↦
        let (p, e, le, lt) = within_minute c.last_persist_at now fresh in
        let same = persist_fresh fresh in
        (p, ap (λ (x : Control). x.last_persist_at) same ∙ e, le, lt, inl (e, same))
    | inr due ↦
        let saved = persist_due due in
        (
          now,
          ap (λ (x : Control). x.last_persist_at) saved,
          le_refl (instant now),
          omega arith,
          inr (refl, saved),
        )
  ]
