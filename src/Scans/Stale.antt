-- ===== src/Scans/Stale.antt =====
-- The removal of computers that were not seen for long, of src/kid_pc_monitor/scan_store.py. The texts
-- of stored times are taken to be in the order of their times.
use kid_pc_monitor.Base.{
  ℕ, Bool, true, false, not, ◌&&◌, ◌||◌, Option, none, some, List, [], ◌∷◌, ltb, ◌==◌,
  if◌then◌else◌,
}
use kid_pc_monitor.Base.Text.{Text, codes, text_eq, member}
use kid_pc_monitor.Scans.{
  Values, ScanRow, is_good, time_of_scan, Info, put, truth, Sighting, Tables, latest_of,
  latest_scan_pc_for_ip, time_at,
}

module _ (values : Values) where
  -- A row of `snapshots`.
  pub record Snapshot : Type 0 where
    pub ip : Text
    pub recorded_at : ℕ
    pub payload : Info values

  -- The later of two times.
  abbrev pub later : Option ℕ → Option ℕ → Option ℕ
  later none b = b
  later (some a) none = some a
  later (some a) (some b) = if ltb a b then some b else some a

  -- `_latest_reachable_snapshot_time`
  unfoldable pub latest_reachable_snapshot_time : List Snapshot → Text → Option ℕ
  latest_reachable_snapshot_time [] ip = none
  latest_reachable_snapshot_time (s ∷ snapshots) ip =
      let rest = latest_reachable_snapshot_time snapshots ip in
      if text_eq s.ip ip && truth values false (s.payload (codes "reachable"))
      then later (some s.recorded_at) rest
      else rest

  unfoldable pub reachable_rows : List (Sighting values) → List (Sighting values)
  reachable_rows [] = []
  reachable_rows (row ∷ rows) =
      let rest = reachable_rows rows in
      if truth values true (row.payload (codes "reachable")) then row ∷ rest else rest

  -- `_latest_reachable_scan_time`
  unfoldable pub latest_reachable_scan_time : Tables values → Text → Option ℕ
  unfolding reachable_rows latest_of time_of_scan
  latest_reachable_scan_time t ip =
      time_at values t.scans (latest_of values t.scans ip (reachable_rows t.sightings))

  unfoldable pub tracked_ip_last_updated : List Snapshot → Tables values → Text → Option ℕ
  unfolding latest_reachable_snapshot_time latest_reachable_scan_time
  tracked_ip_last_updated snapshots t ip =
      later (latest_reachable_scan_time t ip) (latest_reachable_snapshot_time snapshots ip)

  -- `last_updated is None or last_updated < cutoff`
  abbrev pub is_before : ℕ → Option ℕ → Bool
  is_before cutoff none = true
  is_before cutoff (some time) = ltb time cutoff

  abbrev pub is_stale : List Snapshot → ℕ → Tables values → Text → Bool
  is_stale snapshots cutoff t ip = is_before cutoff (tracked_ip_last_updated snapshots t ip)

  -- `SELECT DISTINCT sp.ip`, of the rows whose scan has no error.
  unfoldable pub known_ips : List ScanRow → List (Sighting values) → List Text
  known_ips scans [] = []
  known_ips scans (row ∷ rows) =
      let rest = known_ips scans rows in
      if is_good scans row.scan_id && not (member row.ip rest) then row.ip ∷ rest else rest

  -- The loop that collects the stale addresses.
  unfoldable pub stale_of : (Text → Bool) → List Text → List Text
  stale_of stale [] = []
  stale_of stale (ip ∷ ips) = let rest = stale_of stale ips in if stale ip then ip ∷ rest else rest

  abbrev pub has_key : Option (values.V) → Bool
  has_key none = false
  has_key (some v) = true

  -- The payload of a computer that is not connected.
  abbrev pub disconnected : Info values → Info values
  disconnected info =
      put values (codes "connection_error") none
        (put values (codes "reachable") (some values.no) info)

  abbrev pub set_disconnected : ℕ → Text → Info values → Sighting values → Sighting values
  set_disconnected id ip payload row =
      if row.scan_id == id && text_eq row.ip ip then record row { payload = payload } else row

  unfoldable pub store_payload :
      ℕ → Text → Info values → List (Sighting values) → List (Sighting values)
  store_payload id ip payload [] = []
  store_payload id ip payload (row ∷ rows) =
      set_disconnected id ip payload row ∷ store_payload id ip payload rows

  abbrev pub mark_row : Option (Sighting values) → Text → Tables values → Tables values
  mark_row none ip t = t
  mark_row (some row) ip t =
      if not (truth values true (row.payload (codes "reachable")))
        && not (has_key (row.payload (codes "connection_error")))
      then t
      else record t {
        sightings = store_payload row.scan_id ip (disconnected row.payload) t.sightings;
      }

  -- `_mark_latest_not_connected`
  unfoldable pub mark_latest_not_connected : Text → Tables values → Tables values
  unfolding store_payload latest_of
  mark_latest_not_connected ip t = mark_row (latest_scan_pc_for_ip values t ip) ip t

  -- `DELETE FROM scan_pcs WHERE ip = ?`, for every stale address.
  unfoldable pub delete_rows : List Text → List (Sighting values) → List (Sighting values)
  delete_rows stale [] = []
  delete_rows stale (row ∷ rows) =
      let rest = delete_rows stale rows in if member row.ip stale then rest else row ∷ rest

  -- `scan_id` occurs.
  unfoldable pub has_row : ℕ → List (Sighting values) → Bool
  has_row id [] = false
  has_row id (row ∷ rows) = row.scan_id == id || has_row id rows

  -- `_prune_orphan_scans`
  unfoldable pub prune_orphan_scans : List (Sighting values) → List ScanRow → List ScanRow
  unfolding has_row
  prune_orphan_scans rows [] = []
  prune_orphan_scans rows (s ∷ scans) =
      let rest = prune_orphan_scans rows scans in if has_row s.id rows then s ∷ rest else rest

  abbrev pub without : List Text → Tables values → Tables values
  without stale t = record t {
    scans = prune_orphan_scans (delete_rows stale t.sightings) t.scans;
    sightings = delete_rows stale t.sightings;
  }

  abbrev pub pruned : List Text → List Text → Tables values → Tables values × List Text
  pruned (ip ∷ []) (stale ∷ more) t = (mark_latest_not_connected ip t, [])
  pruned ips stale t = (without stale t, stale)

  -- `prune_stale_tracked_ips`, with what it returns.
  unfoldable pub prune_stale_tracked_ips :
      List Snapshot → ℕ → Tables values → Tables values × List Text
  unfolding tracked_ip_last_updated known_ips stale_of delete_rows prune_orphan_scans
  prune_stale_tracked_ips snapshots cutoff t =
      let ips = known_ips t.scans t.sightings in
      pruned ips (stale_of (is_stale snapshots cutoff t) ips) t
