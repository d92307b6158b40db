-- ===== src/State/Store/Recovery.antt =====
-- What a write that stops anywhere, and the next read, keep of a document.
use kid_pc_monitor.Base.{◌≡◌, ◌⊎◌, inl, inr, refl, Option, none, some, arith}
use kid_pc_monitor.Base.Text.{Text}
use kid_pc_monitor.Control.{Answer, answers, raises}
use kid_pc_monitor.Wire.{Result, ok, err}
use kid_pc_monitor.State.Load.{Dict}
use kid_pc_monitor.State.Store.{absent, Files, WriteAnswers, validated, write_json}

abbrev or_backup : {A : Type 0} → Option (Result A) → Option (Result A) → Option A
or_backup (some (ok v)) b = some v
or_backup none (some (ok v)) = some v
or_backup none none = none
or_backup none (some (err e)) = none
or_backup (some (err e)) (some (ok v)) = some v
or_backup (some (err e)) none = none
or_backup (some (err e)) (some (err e')) = none

module _ {F A : Type 0} (loader : Dict F → Result A) where
  -- What the document stands for: the value of the file, else of its backup.
  abbrev pub recovered : Files F → Option A
  recovered fs = or_backup (validated loader fs.main) (validated loader fs.backup)

  -- Wherever a write stops, the document stands for what it stood for before or for what was
  -- written; a write that raises nothing leaves it standing for what was written, with nothing left
  -- in the scratch file.
  pub write_json-recovers :
      (a : WriteAnswers F) (payload : Dict F) (value : A) (fs : Files F)
      → loader payload ≡ ok value
      → let (fs', answer) = write_json loader a payload fs in
        ((answer ≡ answers tt) × (recovered fs' ≡ some value) × (fs'.scratch ≡ absent))
        ⊎ ((e : Text) × (answer ≡ raises e)
            × ((recovered fs' ≡ recovered fs) ⊎ (recovered fs' ≡ some value)))
  unfolding write_json
  write_json-recovers a payload value fs h = by_answer (write_json loader a payload fs).1 refl
    where
      by_answer :
          (x : Answer (Unit {0}))
          → (write_json loader a payload fs).1 ≡ x
          → let (fs', answer) = write_json loader a payload fs in
            ((answer ≡ answers tt) × (recovered fs' ≡ some value) × (fs'.scratch ≡ absent))
            ⊎ ((e : Text) × (answer ≡ raises e)
                × ((recovered fs' ≡ recovered fs) ⊎ (recovered fs' ≡ some value)))
      by_answer (answers u) p = inl (ground arith)
      by_answer (raises e) p = inr (e, p, ground arith)
