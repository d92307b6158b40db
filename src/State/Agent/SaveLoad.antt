-- ===== src/State/Agent/SaveLoad.antt =====
-- What is saved is loaded again.
use kid_pc_monitor.Base.{ℕ, ◌≤◌, ◌≡◌, refl, false, some, [], arith}
use kid_pc_monitor.Base.Text.{Text}
use kid_pc_monitor.Clock.{Time, DateTime, IsDateTime}
use kid_pc_monitor.Policy.{usage_period_date}
use kid_pc_monitor.Wire.{Result, ok}
use kid_pc_monitor.Control.{Answer, answers, raises}
use kid_pc_monitor.State.{DailySettings, RuntimeState, reset_runtime_if_needed}
use kid_pc_monitor.State.Values.{Floats, max_abs_int}
use kid_pc_monitor.State.Timestamp.{Iso}
use kid_pc_monitor.State.Load.{
  Dict, daily_to_dict, runtime_to_dict, load_daily_from_dict, load_runtime_from_dict,
}
use kid_pc_monitor.State.Load.Bounds.{IsSound}
use kid_pc_monitor.State.Load.RoundTrip.{
  max_day, IsIso, IsRounding, whole_second, load_daily_from_dict-daily_to_dict,
  load_runtime_from_dict-runtime_to_dict,
}
use kid_pc_monitor.State.Store.{holds, Files, WriteAnswers, ReadAnswers, write_json, read_validated}
use kid_pc_monitor.State.Agent.{Disk, LoadAnswers, SaveDisk, write_daily, saved_daily, save, load}

module _ {F A : Type 0} (loader : Dict F → Result A) where
  write_json-main :
      (a : WriteAnswers F) (payload : Dict F) (fs : Files F)
      → (write_json loader a payload fs).1 ≡ answers tt
      → (write_json loader a payload fs).0.main ≡ holds payload
  unfolding write_json
  write_json-main a payload fs h = ground arith

  read_validated-main :
      (a : ReadAnswers F) (payload : Dict F) (value : A) (fs : Files F)
      → fs.main ≡ holds payload
      → loader payload ≡ ok value
      → a.main_readable ≡ answers tt
      → read_validated loader a fs ≡ (fs, answers (some value), [])
  unfolding read_validated
  read_validated-main a payload value fs m l r = rw (r, m, l) refl

still_current :
    (r : RuntimeState) (wake : Time) (now : DateTime)
    → usage_period_date r.timestamp wake ≡ usage_period_date now wake
    → reset_runtime_if_needed r wake now ≡ (r, false)
unfolding reset_runtime_if_needed
still_current r wake now e = ground arith

module _ (fl : Floats) (iso : Iso) (lowered : Text → Text) where
  open fl use {F}

  -- Both files hold what was saved.
  abbrev Saved : DateTime → DailySettings → RuntimeState → Disk F → Type 0
  Saved now daily runtime disk =
      (disk.daily.main ≡ holds (daily_to_dict daily))
      × (disk.state.main ≡ holds (runtime_to_dict fl iso (record runtime { timestamp = now })))

  save-Saved :
      (a : SaveDisk F) (daily : DailySettings) (runtime : RuntimeState) (disk : Disk F)
      → (save fl iso lowered a daily runtime disk).1 ≡ answers tt
      → Saved a.save_now daily runtime (save fl iso lowered a daily runtime disk).0
  unfolding save
  save-Saved a daily runtime disk h =
      state_too (write_daily fl iso lowered a.daily_write daily disk)
        (write_json-main (load_daily_from_dict fl iso) a.daily_write (daily_to_dict daily)
          disk.daily)
        h
    where
      state_too :
          (x : Disk F × Answer (Unit {0}))
          → (x.1 ≡ answers tt → x.0.daily.main ≡ holds (daily_to_dict daily))
          → (saved_daily fl iso lowered a (record runtime { timestamp = a.save_now }) x).1
            ≡ answers tt
          → Saved a.save_now daily runtime
              (saved_daily fl iso lowered a (record runtime { timestamp = a.save_now }) x).0
      state_too (disk, raises e) p q = cc
      state_too (disk, answers u) p q =
          (p refl, write_json-main (load_runtime_from_dict fl iso) a.state_write _ disk.state q)

  module _ (rounded : ℕ → ℕ) (user : Text) (a : SaveDisk F) (b : LoadAnswers F)
      (daily : DailySettings) (runtime : RuntimeState) (disk : Disk F) where
    -- The runtime state as it comes back: of the time of the save, to the second, its usage rounded.
    abbrev pub reloaded : RuntimeState
    reloaded = record runtime {
      timestamp = whole_second a.save_now;
      accumulated = rounded runtime.accumulated;
    }

    -- After a save that raised nothing, a load in the same usage period that can read both files
    -- gives the settings and the runtime state that were saved, the latter stamped with the second of
    -- the save and its usage rounded, to half a millisecond up to 2 ^ 53 microseconds; it reports no
    -- problem and changes nothing.
    pub load-save :
        IsIso iso
        → IsRounding fl rounded
        → IsSound fl iso daily
        → IsDateTime a.save_now
        → a.save_now.day ≤ max_day
        → runtime.cumulative_extension_seconds ≤ max_abs_int
        → b.daily_read.main_readable ≡ answers tt
        → b.state_read.main_readable ≡ answers tt
        → usage_period_date (whole_second a.save_now) daily.wake_time
          ≡ usage_period_date b.reset_now daily.wake_time
        → (save fl iso lowered a daily runtime disk).1 ≡ answers tt
        → let disk' = (save fl iso lowered a daily runtime disk).0 in
          load fl iso lowered user b disk' ≡ (disk', answers (daily, reloaded), [])
    unfolding load
    load-save law near sound valid dated small r s same h =
        let disk' = (save fl iso lowered a daily runtime disk).0 in
        let (m, n) = save-Saved a daily runtime disk h in
        rw
          (
            read_validated-main (load_daily_from_dict fl iso) b.daily_read (daily_to_dict daily)
                daily disk'.daily m (load_daily_from_dict-daily_to_dict fl iso daily sound) r,
            read_validated-main (load_runtime_from_dict fl iso) b.state_read _ reloaded disk'.state
                n
                (load_runtime_from_dict-runtime_to_dict fl iso rounded
                  (record runtime { timestamp = a.save_now }) law near valid dated small)
                s,
            still_current reloaded daily.wake_time b.reset_now same,
          )
          refl
