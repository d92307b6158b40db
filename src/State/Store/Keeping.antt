-- ===== src/State/Store/Keeping.antt =====
-- What a validated read makes of a document: the value, the repair, and what becomes of bad files.
use kid_pc_monitor.Base.{◌≡◌, ◌⊎◌, true, none, List, [], ◌∷◌, arith}
use kid_pc_monitor.Clock.{DateTime}
use kid_pc_monitor.Control.{answers}
use kid_pc_monitor.Wire.{Result}
use kid_pc_monitor.State.Load.{Dict}
use kid_pc_monitor.State.Store.{FileState, absent, Files, Which, ReadAnswers, read_validated}
use kid_pc_monitor.State.Store.Recovery.{recovered}

-- The content stands somewhere among the files that were moved aside.
abbrev Among : {F : Type 0} → FileState F → List (Which × DateTime × FileState F) → Type 0
Among x [] = ⊥
Among x ((which, stamp, y) ∷ rest) = (y ≡ x) ⊎ Among x rest

-- A content is still there: in its place, in the backup's, or moved aside.
abbrev pub Kept : {F : Type 0} → FileState F → Files F → Type 0
Kept x fs = (x ≡ absent) ⊎ ((fs.main ≡ x) ⊎ ((fs.backup ≡ x) ⊎ Among x fs.aside))

-- Every call of the disk succeeds.
pub record AllWell {F : Type 0} (a : ReadAnswers F) : Type 0 where
  pub main_readable : a.main_readable ≡ answers tt
  pub backup_readable : a.backup_readable ≡ answers tt
  pub main_moved : a.main_moved ≡ true
  pub backup_moved : a.backup_moved ≡ true
  pub restored : a.restored ≡ none

module _ {F A : Type 0} (loader : Dict F → Result A) (a : ReadAnswers F) (fs : Files F) where
  -- Whatever else fails, if a bad file can be moved aside then neither it nor the backup is lost.
  pub read_validated-Kept :
      a.main_moved ≡ true
      → let fs' = (read_validated loader a fs).0 in Kept fs.main fs' × Kept fs.backup fs'
  unfolding read_validated
  read_validated-Kept h = ground arith

  -- Where every call of the disk succeeds, a read gives what the document stands for, and repairs
  -- it: a second read gives the same and reports no problem.
  pub read_validated-repairs :
      (b : ReadAnswers F)
      → AllWell a
      → AllWell b
      → let (fs', answer, problems) = read_validated loader a fs in
        (answer ≡ answers (recovered loader fs))
        × (recovered loader fs' ≡ recovered loader fs)
        × (read_validated loader b fs' ≡ (fs', answers (recovered loader fs), []))
  unfolding read_validated
  read_validated-repairs b w v = ground arith
