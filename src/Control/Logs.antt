-- ===== src/Control/Logs.antt =====
-- `PCTimeControl.read_log_tail` of src/kid_pc_monitor/pc_time_control.py: the last lines of the log,
-- read in blocks from its end. `decode` is `bytes.decode("utf-8", errors="replace")`; the tail is not
-- negative, since `parse_request` takes no other.
pub mod Lines
pub mod Tail
use kid_pc_monitor.Base.{
  ℕ, zero, suc, ◌-◌, Bool, true, false, ◌&&◌, ◌||◌, Option, none, some, List, [], ◌∷◌, ◌++◌, map,
  leb, ltb, ◌==◌, if◌then◌else◌, take, drop, length, reverse,
}
use kid_pc_monitor.Base.Text.{Text, Bytes}

-- The first part with one more byte in front.
abbrev pub onto : ℕ → List Bytes → List Bytes
onto c [] = (c ∷ []) ∷ []
onto c (p ∷ ps) = (c ∷ p) ∷ ps

-- `split(b"\n")`
unfoldable pub split_lines : Bytes → List Bytes
split_lines [] = [] ∷ []
split_lines (c ∷ s) = let parts = split_lines s in if c == 10 then [] ∷ parts else onto c parts

-- `parts[0]` and `parts[1:]`
abbrev pub first_part : List Bytes → Bytes
first_part [] = []
first_part (p ∷ ps) = p

abbrev pub later_parts : List Bytes → List Bytes
later_parts [] = []
later_parts (p ∷ ps) = ps

abbrev pub is_empty : {A : Type 0} → List A → Bool
is_empty [] = true
is_empty (x ∷ xs) = false

-- `if part or raw_lines: raw_lines.append(part)`
abbrev pub keep : Bytes → List Bytes → List Bytes
keep part raw_lines =
    if is_empty part && is_empty raw_lines then raw_lines else raw_lines ++ part ∷ []

-- The loop over the parts, from the last to the first.
unfoldable pub collect : ℕ → List Bytes → List Bytes → List Bytes
collect tail raw_lines [] = raw_lines
collect tail raw_lines (part ∷ parts) =
    let kept = keep part raw_lines in
    let rest = collect tail kept parts in if ltb tail (length kept) then kept else rest

-- `min(block, remaining)`
abbrev pub block_of : ℕ → ℕ
block_of remaining = if leb 8192 remaining then 8192 else remaining

-- The variables of the loop over the blocks.
pub record Scan : Type 0 where
  pub remaining : ℕ
  pub fragment : Bytes
  pub raw_lines : List Bytes

module _ (file : Bytes) (tail : ℕ) where
  -- The parts of the next block with the fragment behind it.
  abbrev pub parts_at : ℕ → Bytes → List Bytes
  parts_at remaining fragment =
      split_lines
        (take (block_of remaining) (drop (remaining - block_of remaining) file) ++ fragment)

  abbrev pub after_block : List Bytes → ℕ → List Bytes → Scan
  after_block parts remaining raw_lines =
      if ltb 0 remaining
      then record {
        remaining = remaining;
        fragment = first_part parts;
        raw_lines = collect tail raw_lines (reverse (later_parts parts));
      }
      else record {
        remaining = 0;
        fragment = [];
        raw_lines = collect tail raw_lines (reverse parts);
      }

  -- One round of the loop.
  unfoldable pub read_block : Scan → Scan
  unfolding split_lines collect
  read_block s =
      after_block (parts_at s.remaining s.fragment) (s.remaining - block_of s.remaining) s.raw_lines

  -- The loop. Each round reads at least one byte, so `file_end` rounds are enough.
  unfoldable pub scan_blocks : ℕ → Scan → Scan
  unfolding read_block
  scan_blocks zero s = s
  scan_blocks (suc fuel) s =
      let rest = scan_blocks fuel (read_block s) in
      if ltb 0 s.remaining && leb (length s.raw_lines) tail then rest else s

-- The variables before the first round.
abbrev pub at_end : Bytes → Scan
at_end file = record { remaining = length file; fragment = []; raw_lines = [] }

module _ (decode : Bytes → Text) where
  abbrev pub decoded : ℕ → Scan → List Text × Bool
  decoded tail s = (
    map decode (reverse (take tail s.raw_lines)),
    ltb 0 s.remaining || ltb tail (length s.raw_lines),
  )

  -- The file's bytes, or none where there is no file.
  unfoldable pub read_log_tail : Option Bytes → ℕ → List Text × Bool
  unfolding scan_blocks
  read_log_tail none tail = ([], false)
  read_log_tail (some []) tail = ([], false)
  read_log_tail (some (c ∷ s)) tail =
      decoded tail (scan_blocks (c ∷ s) tail (length (c ∷ s)) (at_end (c ∷ s)))
