-- ===== src/Snapshots.antt =====
-- The table `snapshots` of the panel, src/kid_pc_monitor/snapshot_store.py: what the functions that write
-- it do, and its trimming. A date is the number of its day and a time the number of its second: the
-- stored texts are taken to be in their order, and the clock to stand still during a call. `column` is the
-- text that SQLite stores for a value in a column of type TEXT, or none where the binding raises; `shown`
-- is `str`. A payload that is written as JSON and read back is the same.
pub mod History
pub mod Saving
pub mod Latest
pub mod Dashboard
use kid_pc_monitor.Base.{
  ℕ, ◌+◌, ◌*◌, Bool, true, false, not, ◌&&◌, ◌||◌, Option, none, some, List, [], ◌∷◌, ◌++◌, ltb,
  ◌==◌, if◌then◌else◌,
}
use kid_pc_monitor.Base.Text.{Text, codes, text_eq}
use kid_pc_monitor.Scans.{Values, Info, put, truth}

-- RETENTION_DAYS
abbrev pub retention_days : ℕ
retention_days = 7

-- TRIM_INTERVAL_DAYS, in seconds
abbrev pub trim_interval : ℕ
trim_interval = 7 * 86400

-- A reading of the panel's clock: the local day, and the second.
pub record Moment : Type 0 where
  pub day : ℕ
  pub second : ℕ

-- What a call leaves in the database, or what it raises.
pub data Stored (A : Type 0) : Type 0 where
  stored : A → Stored A
  fails : Stored A  -- sqlite3.InterfaceError or sqlite3.ProgrammingError

module _ (values : Values) where
  -- A row of `snapshots`.
  pub record Row : Type 0 where
    pub username : Text
    pub hostname : Text
    pub ip : Text
    pub snapshot_date : ℕ
    pub recorded_at : ℕ
    pub payload : Info values

  -- The rows, and the entry `last_trim_at` of `panel_meta`.
  pub record Store : Type 0 where
    pub rows : List Row
    pub last_trim_at : Option ℕ

  -- The primary key.
  abbrev pub has_keys : Text → Text → ℕ → Row → Bool
  has_keys username hostname date row =
      text_eq row.username username && (text_eq row.hostname hostname && row.snapshot_date == date)

  unfoldable pub without_keys : Text → Text → ℕ → List Row → List Row
  without_keys username hostname date [] = []
  without_keys username hostname date (row ∷ rows) =
      let rest = without_keys username hostname date rows in
      if has_keys username hostname date row then rest else row ∷ rest

  -- `INSERT OR REPLACE INTO snapshots`
  unfoldable pub insert_or_replace : Row → List Row → List Row
  unfolding without_keys
  insert_or_replace row rows = row ∷ without_keys row.username row.hostname row.snapshot_date rows

  -- `DELETE FROM snapshots WHERE snapshot_date < ?`, of the day that many days before today
  unfoldable pub delete_before : ℕ → List Row → List Row
  delete_before today [] = []
  delete_before today (row ∷ rows) =
      let rest = delete_before today rows in
      if ltb (row.snapshot_date + retention_days) today then rest else row ∷ rest

  -- `now - last_trim < timedelta(days=TRIM_INTERVAL_DAYS)`
  abbrev pub trimmed_lately : Option ℕ → Moment → Bool
  trimmed_lately none now = false
  trimmed_lately (some last) now = ltb now.second (last + trim_interval)

  -- `_trim_old_rows`
  unfoldable pub trim_old_rows : Moment → Store → Store
  unfolding delete_before
  trim_old_rows now s =
      if trimmed_lately s.last_trim_at now
      then s
      else record { rows = delete_before now.day s.rows; last_trim_at = some now.second }

  abbrev text_in : Option (values.V) → Text
  text_in none = []
  text_in (some v) = elim (values.text_of v) [ none ↦ [] | some t ↦ t ]

  -- `_snapshot_username`
  unfoldable pub snapshot_username : Info values → Text
  snapshot_username info = text_in (info (codes "current_user"))

  module _ (column : values.V → Option Text) (shown : values.V → Text) where
    abbrev pub column_text : Option Text → Stored Text
    column_text none = fails
    column_text (some t) = stored t

    -- `pc_info.get(key) or default`, as the text of its column
    abbrev pub or_text : Text → Option (values.V) → Stored Text
    or_text default none = stored default
    or_text default (some v) = if values.truthy v then column_text (column v) else stored default

    abbrev pub then_store : {A B : Type 0} → Stored A → (A → Stored B) → Stored B
    then_store fails k = fails
    then_store (stored a) k = k a

    -- `save_snapshot`
    unfoldable pub save_snapshot : Info values → Moment → Store → Stored Store
    unfolding snapshot_username insert_or_replace trim_old_rows
    save_snapshot info now s =
        let username = snapshot_username info in
        if not (truth values false (info (codes "reachable")))
        then stored s
        else if text_eq username [] || not (truth values false (info (codes "hostname")))
        then stored s
        else then_store (or_text [] (info (codes "hostname"))) (λ hostname.
          then_store (or_text [] (info (codes "ip"))) (λ ip. stored (
            trim_old_rows now (record s {
              rows =
                  insert_or_replace
                    (record {
                      username = username;
                      hostname = hostname;
                      ip = ip;
                      snapshot_date = now.day;
                      recorded_at = now.second;
                      payload = info;
                    })
                    s.rows;
            }))))

    -- `pc_info.get("hostname") or f"PC at {ip}"`
    abbrev pub or_placeholder : values.V → Option (values.V) → values.V
    or_placeholder ip none = values.text (codes "PC at " ++ shown ip)
    or_placeholder ip (some v) =
        if values.truthy v then v else values.text (codes "PC at " ++ shown ip)

    abbrev pub polled_row : Info values → Moment → values.V → Text → Text → Row
    polled_row info now ip_value hostname ip = record {
      username = snapshot_username info;
      hostname = hostname;
      ip = ip;
      snapshot_date = now.day;
      recorded_at = now.second;
      payload =
          put values (codes "hostname") (some (or_placeholder ip_value (info (codes "hostname"))))
            (put values (codes "ip") (some ip_value) info);
    }

    abbrev pub save_poll_of : Option (values.V) → Info values → Moment → Store → Stored Store
    save_poll_of none info now s = stored s
    save_poll_of (some ip_value) info now s =
        if values.truthy ip_value
        then then_store (column_text (column (or_placeholder ip_value (info (codes "hostname")))))
            (λ hostname. then_store (column_text (column ip_value)) (λ ip. stored (record s {
              rows = insert_or_replace (polled_row info now ip_value hostname ip) s.rows;
            })))
        else stored s

    -- `save_poll_snapshot`
    unfoldable pub save_poll_snapshot : Info values → Moment → Store → Stored Store
    unfolding snapshot_username insert_or_replace
    save_poll_snapshot info now s =
        if truth values true (info (codes "reachable"))
        then save_poll_of (info (codes "ip")) info now s
        else stored s
