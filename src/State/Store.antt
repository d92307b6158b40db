-- ===== src/State/Store.antt =====
-- `_load_json_file`, `_write_json`, `_quarantine`, `_restore` and `_read_validated` of
-- src/kid_pc_monitor/agent_state.py, on the files of one document: the file itself, its backup
-- `<name>.bak`, the scratch file `.json.tmp` and the files that were moved aside. What the disk
-- answers to each call is an argument; a call that fails midway leaves what its answer says.
pub mod Recovery
pub mod Keeping
use kid_pc_monitor.Base.{
  ℕ, Bool, true, false, Option, none, some, List, [], ◌∷◌, ◌++◌, if◌then◌else◌,
}
use kid_pc_monitor.Base.Text.{Text, codes}
use kid_pc_monitor.Clock.{DateTime}
use kid_pc_monitor.Wire.{Exn, protocol_error, exception, Result, ok, err}
use kid_pc_monitor.Control.{Answer, answers, raises}
use kid_pc_monitor.State.Load.{Dict}

-- What is in the place of a file: `unusable` is text that `json.loads` does not take for an object, or
-- bytes that are no UTF-8, with the reason that `_load_json_file` gives.
pub data FileState (F : Type 0) : Type 0 where
  absent : FileState F
  unusable : Text → FileState F
  holds : Dict F → FileState F

-- Which of a document's files was moved aside.
pub data Which : Type 0 where
  main_file : Which
  backup_file : Which

pub record Files (F : Type 0) : Type 0 where
  pub name : Text
  pub main : FileState F
  pub backup : FileState F
  pub scratch : FileState F
  pub aside : List (Which × DateTime × FileState F)

pub data Action : Type 0 where
  quarantined : Action
  restored_from_backup : Action
  ignored : Action

-- `StateProblem`
pub record Problem : Type 0 where
  pub file : Text
  pub action : Action
  pub reason : Text

-- The answers to a write. `copied` and `scratched`: done, or failed, leaving this behind.
pub record WriteAnswers (F : Type 0) : Type 0 where
  pub readable : Answer (Unit {0})
  pub copied : Option (Text × FileState F)
  pub scratched : Option (Text × FileState F)
  pub replaced : Answer (Unit {0})

-- The answers to a validated read: each file can be read, each move and the copy succeeds.
pub record ReadAnswers (F : Type 0) : Type 0 where
  pub main_readable : Answer (Unit {0})
  pub backup_readable : Answer (Unit {0})
  pub main_moved : Bool
  pub backup_moved : Bool
  pub restored : Option (FileState F)
  pub stamp : DateTime

-- `path.name`, of the document so named.
abbrev pub file_name : Which → Text → Text
file_name main_file name = name
file_name backup_file name = name ++ codes ".bak"

abbrev pub exn_text : Exn → Text
exn_text (protocol_error code message req_id) = message
exn_text (exception text) = text

abbrev pub quarantined_problem : Which → Text → Exn → Problem
quarantined_problem file name e = record {
  file = file_name file name;
  action = quarantined;
  reason = exn_text e;
}

abbrev pub restored_problem : Text → Problem
restored_problem name = record {
  file = name;
  action = restored_from_backup;
  reason = codes "from " ++ file_name backup_file name;
}

module _ {F A : Type 0} (loader : Dict F → Result A) where
  -- The value of a file, or why there is none; neither where there is no file.
  abbrev pub validated : FileState F → Option (Result A)
  validated absent = none
  validated (unusable reason) = some (err (exception reason))
  validated (holds d) = some (loader d)

  -- `copy2(path, _backup_path(path))`, where the current file is valid.
  abbrev pub keep_backup :
      Option (Text × FileState F) → Option (Result A) → Files F → Files F × Answer (Unit {0})
  keep_backup copied none fs = (fs, answers tt)
  keep_backup copied (some (err e)) fs = (fs, answers tt)
  keep_backup none (some (ok a)) fs = (record fs { backup = fs.main }, answers tt)
  keep_backup (some (e, torn)) (some (ok a)) fs = (record fs { backup = torn }, raises e)

  -- `tmp.write_text` and `os.replace`.
  abbrev pub replace_main :
      Option (Text × FileState F)
      → Answer (Unit {0})
      → Dict F
      → Files F
      → Files F × Answer (Unit {0})
  replace_main (some (e, torn)) replaced payload fs = (record fs { scratch = torn }, raises e)
  replace_main none (raises e) payload fs = (record fs { scratch = holds payload }, raises e)
  replace_main none (answers u) payload fs =
      (record fs { main = holds payload; scratch = absent }, answers tt)

  abbrev pub after_backup :
      WriteAnswers F → Dict F → Files F × Answer (Unit {0}) → Files F × Answer (Unit {0})
  after_backup a payload (fs, raises e) = (fs, raises e)
  after_backup a payload (fs, answers u) = replace_main a.scratched a.replaced payload fs

  abbrev pub write_after :
      Answer (Unit {0}) → WriteAnswers F → Dict F → Files F → Files F × Answer (Unit {0})
  write_after (raises e) a payload fs = (fs, raises e)
  write_after (answers u) a payload fs =
      after_backup a payload (keep_backup a.copied (validated fs.main) fs)

  -- `_write_json`, with `validate`.
  unfoldable pub write_json : WriteAnswers F → Dict F → Files F → Files F × Answer (Unit {0})
  write_json a payload fs = write_after a.readable a payload fs

  -- `_quarantine`; a move that fails leaves the file where it is.
  unfoldable pub quarantine : Which → DateTime → Bool → Files F → Files F
  quarantine main_file stamp moved fs =
      if moved
      then record fs { main = absent; aside = (main_file, stamp, fs.main) ∷ fs.aside }
      else fs
  quarantine backup_file stamp moved fs =
      if moved
      then record fs { backup = absent; aside = (backup_file, stamp, fs.backup) ∷ fs.aside }
      else fs

  -- `_restore`; a copy that fails leaves what its answer says.
  unfoldable pub restore : Option (FileState F) → Files F → Files F
  restore none fs = record fs { main = fs.backup }
  restore (some torn) fs = record fs { main = torn }

  abbrev pub Read : Type 0
  Read = Files F × Answer (Option A) × List Problem

  -- The second candidate of `_read_validated`, with the problems so far.
  abbrev pub read_backup :
      ReadAnswers F → List Problem → Answer (Unit {0}) → Option (Result A) → Files F → Read
  read_backup a problems (raises e) v fs = (fs, raises e, problems)
  read_backup a problems (answers u) none fs = (fs, answers none, problems)
  read_backup a problems (answers u) (some (ok value)) fs =
      (restore a.restored fs, answers (some value), problems ++ restored_problem fs.name ∷ [])
  read_backup a problems (answers u) (some (err e)) fs = (
    quarantine backup_file a.stamp a.backup_moved fs,
    answers none,
    problems ++ quarantined_problem backup_file fs.name e ∷ [],
  )

  -- The first candidate.
  abbrev pub read_main : ReadAnswers F → Answer (Unit {0}) → Option (Result A) → Files F → Read
  read_main a (raises e) v fs = (fs, raises e, [])
  read_main a (answers u) none fs = read_backup a [] a.backup_readable (validated fs.backup) fs
  read_main a (answers u) (some (ok value)) fs = (fs, answers (some value), [])
  read_main a (answers u) (some (err e)) fs =
      read_backup a (quarantined_problem main_file fs.name e ∷ []) a.backup_readable
        (validated fs.backup) (quarantine main_file a.stamp a.main_moved fs)

  -- `_read_validated`
  unfoldable pub read_validated : ReadAnswers F → Files F → Read
  unfolding quarantine restore
  read_validated a fs = read_main a a.main_readable (validated fs.main) fs
