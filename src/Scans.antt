-- ===== src/Scans.antt =====
-- The panel's table of tracked computers, src/kid_pc_monitor/scan_store.py: the rows of the tables
-- `scans` and `scan_pcs` (and of `snapshots`, which it only reads), and the functions that run one
-- transaction on them. A time is the number of seconds that the stored text stands for. JSON's values
-- are the parameter `Values`; a payload that is written and read back is the same.
pub mod Latest
pub mod Polls
pub mod Stale
pub mod Pruning
use kid_pc_monitor.Base.{
  ℕ, ◌+◌, ◌-◌, Bool, true, false, not, ◌&&◌, ◌||◌, Option, none, some, List, [], ◌∷◌, map, ltb,
  ◌==◌, if◌then◌else◌, length,
}
use kid_pc_monitor.Base.Text.{Text, codes, text_eq, member}

pub record Values : Type 1 where
  pub V : Type 0
  pub truthy : V → Bool
  pub text_of : V → Option Text  -- the text of a value that is one
  pub text : Text → V
  pub no : V  -- False

pub data Status : Type 0 where
  cant_control : Status
  not_connected : Status
  locked : Status
  online : Status

abbrev pub same_status : Status → Status → Bool
same_status cant_control cant_control = true
same_status not_connected not_connected = true
same_status locked locked = true
same_status online online = true
same_status _ _ = false

-- A row of `scans`.
pub record ScanRow : Type 0 where
  pub id : ℕ
  pub scanned_at : ℕ
  pub error : Option Text

abbrev pub no_error : ScanRow → Bool
no_error s = elim (s.error) [ none ↦ true | some e ↦ false ]

-- The scan of this id exists, and has no error.
unfoldable pub is_good : List ScanRow → ℕ → Bool
is_good [] id = false
is_good (s ∷ scans) id = (s.id == id && no_error s) || is_good scans id

-- `UPDATE scans SET scanned_at = ? WHERE id = ?`
unfoldable pub set_time : ℕ → ℕ → List ScanRow → List ScanRow
set_time now id [] = []
set_time now id (s ∷ scans) =
    (if s.id == id then record s { scanned_at = now } else s) ∷ set_time now id scans

-- The time of a scan.
unfoldable pub time_of_scan : List ScanRow → ℕ → Option ℕ
time_of_scan [] id = none
time_of_scan (s ∷ scans) id =
    let rest = time_of_scan scans id in if s.id == id then some s.scanned_at else rest

module _ (values : Values) where
  open values use {V, truthy, text_of, text, no}

  -- A dictionary.
  abbrev pub Info : Type 0
  Info = Text → Option V

  abbrev pub put : Text → Option V → Info → Info
  put key v info k = if text_eq key k then v else info k

  -- The truth of `info.get(key, default)`.
  abbrev pub truth : Bool → Option V → Bool
  truth default none = default
  truth default (some v) = truthy v

  unfoldable pub dashboard_status_key : Info → Status
  dashboard_status_key info =
      if truth false (info (codes "connection_error"))
      then cant_control
      else if truth false (info (codes "agent_not_running"))
          || not (truth true (info (codes "reachable")))
      then not_connected
      else if truth false (info (codes "locked"))
      then locked
      else online

  abbrev non_empty : Option Text → Option Text
  non_empty none = none
  non_empty (some []) = none
  non_empty (some (c ∷ s)) = some (c ∷ s)

  abbrev text_of? : Option V → Option Text
  text_of? none = none
  text_of? (some v) = text_of v

  -- `_payload_hostname`
  unfoldable pub payload_hostname : Info → Option Text
  payload_hostname info = non_empty (text_of? (info (codes "hostname")))

  -- A row of `scan_pcs`.
  pub record Sighting : Type 0 where
    pub scan_id : ℕ
    pub ip : Text
    pub hostname : Option Text
    pub payload : Info

  -- The database, with the id that the next insertion into `scans` gives.
  pub record Tables : Type 0 where
    pub scans : List ScanRow
    pub sightings : List Sighting
    pub next_id : ℕ

  -- The one with the greater id.
  abbrev pub newer : Sighting → Option Sighting → Option Sighting
  newer row none = some row
  newer row (some other) = if ltb other.scan_id row.scan_id then some row else some other

  unfoldable pub latest_of : List ScanRow → Text → List Sighting → Option Sighting
  unfolding is_good
  latest_of scans ip [] = none
  latest_of scans ip (row ∷ rows) =
      let rest = latest_of scans ip rows in
      if text_eq row.ip ip && is_good scans row.scan_id then newer row rest else rest

  -- `_latest_scan_pc_for_ip` and `_latest_tracked_row`
  abbrev pub latest_scan_pc_for_ip : Tables → Text → Option Sighting
  latest_scan_pc_for_ip t ip = latest_of t.scans ip t.sightings

  -- `UPDATE scan_pcs SET hostname = ?, payload_json = ? WHERE scan_id = ? AND ip = ?`
  abbrev pub set_row : ℕ → Text → Info → Sighting → Sighting
  set_row id ip payload row =
      if row.scan_id == id && text_eq row.ip ip
      then record row { hostname = payload_hostname payload; payload = payload }
      else row

  unfoldable pub set_payload : ℕ → Text → Info → List Sighting → List Sighting
  unfolding payload_hostname
  set_payload id ip payload [] = []
  set_payload id ip payload (row ∷ rows) =
      set_row id ip payload row ∷ set_payload id ip payload rows

  abbrev pub inserted : Text → Info → ℕ → Tables → Tables
  inserted ip payload now t = record {
    scans = record { id = t.next_id; scanned_at = now; error = none } ∷ t.scans;
    sightings =
        record {
          scan_id = t.next_id;
          ip = ip;
          hostname = payload_hostname payload;
          payload = payload;
        }
        ∷ t.sightings;
    next_id = t.next_id + 1;
  }

  abbrev pub updated : ℕ → Text → Info → ℕ → Tables → Tables
  updated id ip payload now t = record t {
    scans = set_time now id t.scans;
    sightings = set_payload id ip payload t.sightings;
  }

  abbrev pub polled : Option Sighting → Text → Info → ℕ → Tables → Tables
  polled none ip payload now t = inserted ip payload now t
  polled (some row) ip payload now t =
      if same_status (dashboard_status_key row.payload) (dashboard_status_key payload)
      then updated row.scan_id ip payload now t
      else inserted ip payload now t

  -- `record_poll_inspect`
  unfoldable pub record_poll_inspect : Text → Info → ℕ → Tables → Tables
  unfolding dashboard_status_key set_payload set_time payload_hostname latest_of
  record_poll_inspect ip info now t =
      polled (latest_scan_pc_for_ip t ip) ip (put (codes "ip") (some (text ip)) info) now t

  abbrev pub payload_of : Option Sighting → Option Info
  payload_of none = none
  payload_of (some row) = some row.payload

  -- `get_tracked_ips().get(ip)`, as `get_scan_pc` has it
  unfoldable pub get_scan_pc : Tables → Text → Option Info
  get_scan_pc t ip = payload_of (latest_scan_pc_for_ip t ip)

  abbrev pub time_at : List ScanRow → Option Sighting → Option ℕ
  time_at scans none = none
  time_at scans (some row) = time_of_scan scans row.scan_id

  -- `_latest_scan_time`, as `get_pc_poll_updated_at` has it
  unfoldable pub get_pc_poll_updated_at : Tables → Text → Option ℕ
  unfolding time_of_scan
  get_pc_poll_updated_at t ip = time_at t.scans (latest_scan_pc_for_ip t ip)
