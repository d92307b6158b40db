-- ===== src/Snapshots/History.antt =====
-- What the saving of snapshots does to the table, as a map from user, host and day.
use kid_pc_monitor.Base.{
  ℕ, ◌+◌, ◌≡◌, Bool, not, ◌&&◌, Option, none, some, List, [], ◌∷◌, ltb, ◌==◌, if◌then◌else◌, arith,
}
use kid_pc_monitor.Base.Text.{Text, text_eq, text_eq_iff}
use kid_pc_monitor.Scans.{Values}
use kid_pc_monitor.Snapshots.{
  retention_days, Moment, Row, Store, has_keys, without_keys, insert_or_replace, delete_before,
  trimmed_lately, trim_old_rows,
}

module _ (values : Values) where
  -- The row of a user, a host and a day.
  unfoldable pub row_of : List (Row values) → Text → Text → ℕ → Option (Row values)
  row_of [] u h d = none
  row_of (row ∷ rows) u h d =
      let rest = row_of rows u h d in if has_keys values u h d row then some row else rest

  row_of-without_keys :
      (u h : Text) (d : ℕ) (u' h' : Text) (d' : ℕ) (rows : List (Row values))
      → row_of (without_keys values u h d rows) u' h' d'
        ≡ (if text_eq u u' && (text_eq h h' && d == d') then none else row_of rows u' h' d')
  unfolding row_of without_keys
  row_of-without_keys u h d u' h' d' [] = ground arith
  row_of-without_keys u h d u' h' d' (row ∷ rows) = ground (
    arith,
    row_of-without_keys u h d u' h' d' rows,
    text_eq_iff u u',
    text_eq_iff h h',
    text_eq_iff row.username u,
    text_eq_iff row.username u',
    text_eq_iff row.hostname h,
    text_eq_iff row.hostname h',
  )

  row_of-delete_before :
      (today : ℕ) (rows : List (Row values)) (u h : Text) (d : ℕ)
      → row_of (delete_before values today rows) u h d
        ≡ (if ltb (d + retention_days) today then none else row_of rows u h d)
  unfolding row_of delete_before
  row_of-delete_before today [] u h d = ground arith
  row_of-delete_before today (row ∷ rows) u h d =
      ground (arith, row_of-delete_before today rows u h d)

  -- Whether a trimming at a time removes the rows of a day.
  abbrev pub removes : Option ℕ → Moment → ℕ → Bool
  removes last now d = not (trimmed_lately values last now) && ltb (d + retention_days) now.day

  pub row_of-trim_old_rows :
      (now : Moment) (s : Store values) (u h : Text) (d : ℕ)
      → row_of (trim_old_rows values now s).rows u h d
        ≡ (if removes s.last_trim_at now d then none else row_of s.rows u h d)
  unfolding trim_old_rows
  row_of-trim_old_rows now s u h d = ground (arith, row_of-delete_before now.day s.rows u h d)

  pub row_of-insert_or_replace :
      (row : Row values) (rows : List (Row values)) (u h : Text) (d : ℕ)
      → row_of (insert_or_replace values row rows) u h d
        ≡ (if has_keys values u h d row then some row else row_of rows u h d)
  unfolding insert_or_replace row_of
  row_of-insert_or_replace row rows u h d =
      ground (arith, row_of-without_keys row.username row.hostname row.snapshot_date u h d rows)
