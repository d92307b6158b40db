-- ===== src/Examples/Storage.antt =====
-- The state files of one evening, for src/kid_pc_monitor/agent_state.py. The floats are whole numbers
-- of microseconds, and a date is its ordinal, written in eight digits where Python writes year, month
-- and day.
use kid_pc_monitor.Base.{
  ℕ, ◌+◌, ◌-◌, ◌*◌, ◌/◌, ◌%◌, ◌≤◌, ◌<◌, ◌≡◌, ◌⊎◌, refl, true, false, none, some, [], ◌∷◌, arith,
}
use kid_pc_monitor.Base.Text.{Text, codes}
use kid_pc_monitor.Base.Decimal.{two_digits}
use kid_pc_monitor.Clock.{DateTime}
use kid_pc_monitor.Wire.{exception, Result, ok, err}
use kid_pc_monitor.Control.{Answer, answers, raises}
use kid_pc_monitor.State.{DailySettings, RuntimeState}
use kid_pc_monitor.Policy.{usage_period_date}
use kid_pc_monitor.State.Values.{Floats}
use kid_pc_monitor.State.Timestamp.{Iso}
use kid_pc_monitor.State.Load.{Dict, daily_to_dict, load_daily_from_dict}
use kid_pc_monitor.State.Load.Bounds.{IsSound, load_daily_from_dict-IsSound}
use kid_pc_monitor.State.Load.RoundTrip.{
  iso_text, whole_second, max_day, IsIso, IsRounding, load_daily_from_dict-daily_to_dict,
}
use kid_pc_monitor.State.Store.{
  absent, unusable, holds, Files, WriteAnswers, ReadAnswers, write_json, read_validated,
}
use kid_pc_monitor.State.Store.Recovery.{recovered, write_json-recovers}
use kid_pc_monitor.State.Store.Keeping.{AllWell, read_validated-repairs}
use kid_pc_monitor.State.Agent.{Disk, LoadAnswers, SaveDisk, write_daily, write_runtime, save, load}
use kid_pc_monitor.State.Agent.SaveLoad.{load-save}

abbrev to_milliseconds : ℕ → ℕ
to_milliseconds u = (u + 500) / 1000 * 1000

abbrev floats : Floats
floats = record {
  F = ℕ;
  whole = λ u. none;
  micros = λ u. some u;
  of_text = λ s. 0;
  round_3 = to_milliseconds;
}

abbrev number : ℕ → ℕ → ℕ
number a b = (a - 48) * 10 + (b - 48)

abbrev read_digits : Text → Result DateTime
read_digits (a ∷ b ∷ c ∷ d ∷ _ ∷ e ∷ f ∷ _ ∷ g ∷ h ∷ _ ∷ i ∷ j ∷ _ ∷ k ∷ l ∷ _ ∷ m ∷ n ∷ []) =
    ok (record {
      day = number a b * 1_000_000 + number c d * 10_000 + number e f * 100 + number g h;
      hour = number i j;
      minute = number k l;
      micros = number m n * 1_000_000;
    })
read_digits _ = err (exception (codes "Invalid isoformat string"))

abbrev dates : Iso
dates = record {
  read_datetime = read_digits;
  read_date = λ s. err (exception (codes "Invalid isoformat string"));
  print_datetime = λ d. iso_text (d.day / 1_000_000) (d.day / 10_000) (d.day / 100) d.day d;
  repr_text = λ s. s;
}

number-digits : (n : ℕ) → number (48 + n / 10 % 10) (48 + n % 10) ≡ n % 100
number-digits n = omega arith

number-day :
    (n : ℕ)
    → n ≤ max_day
    → n / 1_000_000 % 100 * 1_000_000 + n / 10_000 % 100 * 10_000 + n / 100 % 100 * 100 + n % 100
      ≡ n
number-day n u = omega arith

number-seconds : (u : ℕ) → u < 60_000_000 → u / 1_000_000 % 100 ≡ u / 1_000_000
number-seconds u h = omega arith

number-small : (n : ℕ) → n < 60 → n % 100 ≡ n
number-small n h = omega arith

dates-IsIso : IsIso dates
unfolding two_digits
dates-IsIso = record {
  shape = λ d v u. (d.day / 1_000_000, d.day / 10_000, d.day / 100, d.day, refl);
  read_print = λ d v u.
      rw
        (
          number-digits (d.day / 1_000_000),
          number-digits (d.day / 10_000),
          number-digits (d.day / 100),
          number-digits d.day,
          number-digits d.hour,
          number-digits d.minute,
          number-digits (d.micros / 1_000_000),
          number-day d.day u,
          number-seconds d.micros v.micros_lt,
          number-small d.hour (omega arith),
          number-small d.minute v.minute_lt,
        )
        refl;
}

floats-IsRounding : IsRounding floats to_milliseconds
floats-IsRounding = record { micros_round = λ u. refl; near = λ u h. (omega arith, omega arith) }

abbrev evening : ℕ → DateTime
evening m = record { day = 738_000; hour = 18; minute = m; micros = 30_250_000 }

abbrev settings : DailySettings
settings = record {
  bed_time = some (record { hour = 21; minute = 30 });
  wake_time = record { hour = 7; minute = 0 };
  allowance = some 60;
}

abbrev usage : RuntimeState
usage = record {
  timestamp = evening 0;
  accumulated = 3_360_000_400;
  manual_lock_active = true;
  cumulative_extension_seconds = 600;
}

-- A settings file that a crash cut short, with a good backup.
abbrev torn_settings : Files ℕ
torn_settings = record {
  name = codes "daily_settings.json";
  main = unusable (codes "Expecting value");
  backup = holds (daily_to_dict settings);
  scratch = absent;
  aside = [];
}

abbrev no_state : Files ℕ
no_state = record {
  name = codes "state.json";
  main = absent;
  backup = absent;
  scratch = absent;
  aside = [];
}

abbrev reads : ReadAnswers ℕ
reads = record {
  main_readable = answers tt;
  backup_readable = answers tt;
  main_moved = true;
  backup_moved = true;
  restored = none;
  stamp = evening 1;
}

-- The same, where a bad file cannot be moved aside.
abbrev stuck : ReadAnswers ℕ
stuck = record reads { main_moved = false }

abbrev writes : WriteAnswers ℕ
writes = record { readable = answers tt; copied = none; scratched = none; replaced = answers tt }

-- A write that the disk refuses at the last step.
abbrev refused : WriteAnswers ℕ
refused = record writes { replaced = raises (codes "Permission denied") }

abbrev loader : Dict ℕ → Result DailySettings
loader = load_daily_from_dict floats dates

settings-IsSound : IsSound floats dates settings
settings-IsSound = (omega arith, omega arith, omega arith)

settings_read : loader (daily_to_dict settings) ≡ ok settings
settings_read = load_daily_from_dict-daily_to_dict floats dates settings settings-IsSound

reads-AllWell : AllWell reads
reads-AllWell = record {
  main_readable = refl;
  backup_readable = refl;
  main_moved = refl;
  backup_moved = refl;
  restored = refl;
}

abbrev refused_files : Files ℕ × Answer (Unit {0})
refused_files = write_json loader refused (daily_to_dict settings) torn_settings

write_json-recovers_example :
    ((refused_files.1 ≡ answers tt)
      × (recovered loader refused_files.0 ≡ some settings)
      × (refused_files.0.scratch ≡ absent))
    ⊎ ((e : Text) × (refused_files.1 ≡ raises e)
        × ((recovered loader refused_files.0 ≡ recovered loader torn_settings)
            ⊎ (recovered loader refused_files.0 ≡ some settings)))
write_json-recovers_example =
    write_json-recovers loader refused (daily_to_dict settings) settings torn_settings settings_read

read_validated-repairs_example :
    let (fs', answer, problems) = read_validated loader reads torn_settings in
    (answer ≡ answers (recovered loader torn_settings))
    × (recovered loader fs' ≡ recovered loader torn_settings)
    × (read_validated loader reads fs' ≡ (fs', answers (recovered loader torn_settings), []))
read_validated-repairs_example =
    read_validated-repairs loader reads torn_settings reads reads-AllWell reads-AllWell

load_daily_from_dict-IsSound_example : IsSound floats dates settings
load_daily_from_dict-IsSound_example =
    load_daily_from_dict-IsSound floats dates (daily_to_dict settings) settings_read

abbrev saves : SaveDisk ℕ
saves = record { save_now = evening 5; daily_write = writes; state_write = writes }

abbrev loads : LoadAnswers ℕ
loads = record {
  daily_read = reads;
  state_read = reads;
  legacy = answers absent;
  program = answers absent;
  install = answers absent;
  daily_write = writes;
  state_write = writes;
  derive_now = evening 9;
  fresh_now = evening 9;
  write_now = evening 9;
  reset_now = evening 9;
}

abbrev files : Disk ℕ
files = record { daily = torn_settings; state = no_state }

abbrev saved_files : Disk ℕ
saved_files = (save floats dates (λ s. s) saves settings usage files).0

files_saved : (save floats dates (λ s. s) saves settings usage files).1 ≡ answers tt
unfolding save write_daily write_runtime write_json
files_saved = ground arith

load-save_example : load floats dates (λ s. s) (codes "kid") loads saved_files ≡ (
  saved_files,
  answers (
    settings,
    record usage { timestamp = whole_second (evening 5); accumulated = 3_360_000_000 },
  ),
  [],
)
load-save_example =
    load-save floats dates (λ s. s) to_milliseconds (codes "kid") saves loads settings usage files
      dates-IsIso floats-IsRounding settings-IsSound
      (record {
        day_pos = omega arith;
        hour_lt = omega arith;
        minute_lt = omega arith;
        micros_lt = omega arith;
      })
      (omega arith) (omega arith) refl refl (unfold usage_period_date in refl) files_saved
