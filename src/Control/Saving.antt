-- ===== src/Control/Saving.antt =====
-- `save_state` and `load_state`: what may reach the state files.
use kid_pc_monitor.Base.{◌≡◌, ◌⊎◌, inl, inr, refl, true, false, some, arith}
use kid_pc_monitor.Base.Text.{Text}
use kid_pc_monitor.State.{DailySettings, RuntimeState}
use kid_pc_monitor.Control.{Control, Answer, answers, raises, SaveAnswers, save_state}

-- What a save after a failed load does. It loads again; if that raises, the files stay as that load
-- left them and the settings in memory stay too. Otherwise what was read replaces them, and it is
-- written, both files or the first or none, as the writes succeed.
abbrev pub AfterRetry : SaveAnswers → Control → Type 0
AfterRetry a c =
    let c' = save_state a c in
    ((e : Text) × (a.loaded.result ≡ raises e)
      × (c' ≡ record c {
        state_load_failed = true;
        disk_daily = a.loaded.daily_file;
        disk_runtime = a.loaded.runtime_file;
      }))
    ⊎ ((d : DailySettings) × (q : RuntimeState) × (a.loaded.result ≡ answers (d, q))
        × (c'.state_load_failed ≡ false)
        × (c'.daily ≡ d)
        × (c'.runtime ≡ record q { timestamp = a.save_now })
        × ((a.daily_written ≡ false)
              × (c'.disk_daily ≡ a.loaded.daily_file)
              × (c'.disk_runtime ≡ a.loaded.runtime_file)
            ⊎ ((a.daily_written ≡ true)
                × (c'.disk_daily ≡ some d)
                × ((a.runtime_written ≡ false) × (c'.disk_runtime ≡ a.loaded.runtime_file)
                    ⊎ (a.runtime_written ≡ true) × (c'.disk_runtime ≡ some c'.runtime)))))

module _ (a : SaveAnswers) (c : Control) where
  -- While the state files could not be read, a save loads again. If that raises, the save writes
  -- nothing: the files hold what the load left in them, and all else in memory is as it was.
  -- Otherwise what was read replaces the settings and the usage in memory and, with the time of the
  -- save, is what the save writes: to both files, or where a write fails to those before it.
  pub save_state-after_failed_load : c.state_load_failed ≡ true → AfterRetry a c
  unfolding save_state
  save_state-after_failed_load h = by_result a.loaded.result refl
    where
      by_result : (l : Answer (DailySettings × RuntimeState)) → a.loaded.result ≡ l → AfterRetry a c
      by_result (raises e) p = inl (e, p, ground arith)
      by_result (answers (d, q)) p =
          inr (d, q, p, ground arith, ground arith, ground arith, ground arith)

  -- After a good load, a save whose writes succeed leaves on disk what is in memory, stamped with
  -- the time of the save; it changes nothing else in memory.
  pub save_state-writes :
      c.state_load_failed ≡ false
      → a.daily_written ≡ true
      → a.runtime_written ≡ true
      → let saved = record c.runtime { timestamp = a.save_now } in
        save_state a c
        ≡ record c { runtime = saved; disk_daily = some c.daily; disk_runtime = some saved }
  unfolding save_state
  save_state-writes h d r = ground arith
