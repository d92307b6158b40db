-- ===== src/Snapshots/Dashboard.antt =====
-- The dashboard of src/kid_pc_monitor/snapshot_store.py: `get_dashboard_pcs` and `_dedupe_by_hostname`.
-- A dictionary by address is the list of its items, whose addresses differ; `casefold` is Python's,
-- and `time_text` the stored text of a time.
pub mod Order
pub mod Best
pub mod Loop
pub mod Kept
pub mod Deduped
use kid_pc_monitor.Base.{
  ℕ, Bool, true, false, not, ◌&&◌, ◌||◌, Option, none, some, List, [], ◌∷◌, ◌++◌, ltb, ◌==◌,
  if◌then◌else◌,
}
use kid_pc_monitor.Base.Text.{Text, codes, text_eq, text_lt}
use kid_pc_monitor.Scans.{
  Values, Status, cant_control, not_connected, locked, online, Info, put, truth, payload_hostname,
  dashboard_status_key,
}
use kid_pc_monitor.Snapshots.{Row}
use kid_pc_monitor.Snapshots.Latest.{Found, get_latest_snapshot_for_pc}

-- `_STATUS_RANK.get(status, 0)`
abbrev pub status_rank : Status → ℕ
status_rank online = 3
status_rank locked = 3
status_rank not_connected = 1
status_rank cant_control = 0

-- The tuple of `sort_key`: the contact, the rank and the address.
abbrev pub Key : Type 0
Key = ℕ × ℕ × Text

-- `a < b` of such tuples
unfoldable pub key_lt : Key → Key → Bool
unfolding text_lt
key_lt (t, r, ip) (t', r', ip') = ltb t t' || (t == t' && (ltb r r' || (r == r' && text_lt ip ip')))

-- `contact_times.get(ip) or epoch`
abbrev pub contact : Option ℕ → ℕ
contact none = 0
contact (some t) = t

module _ (values : Values) (casefold : Text → Text) where
  -- An item of the dictionary: an address and what is shown for it.
  abbrev pub Entry : Type 0
  Entry = Text × Info values

  abbrev unless_placeholder : Text → Option Text → Option Text
  unless_placeholder ip none = none
  unless_placeholder ip (some hostname) =
      if text_eq hostname (codes "PC at " ++ ip) then none else some (casefold hostname)

  -- `_dedupe_hostname`
  unfoldable pub dedupe_hostname : Entry → Option Text
  unfolding payload_hostname
  dedupe_hostname (ip, info) = unless_placeholder ip (payload_hostname values info)

  module _ (contact_times : Text → Option ℕ) where
    unfoldable pub sort_key : Entry → Key
    unfolding dashboard_status_key
    sort_key (ip, info) =
        (contact (contact_times ip), status_rank (dashboard_status_key values info), ip)

    -- The better of the host's entry so far and a new one.
    abbrev pub better : Entry → Entry → Entry
    better current entry = if key_lt (sort_key current) (sort_key entry) then entry else current

    -- An entry of a host, in `best_ip_for_host`; the dictionary keeps each address with its item.
    unfoldable pub improve : Text → Entry → List (Text × Entry) → List (Text × Entry)
    unfolding key_lt sort_key
    improve host entry [] = (host, entry) ∷ []
    improve host entry ((h, current) ∷ best) =
        let rest = improve host entry best in
        if text_eq h host then (h, better current entry) ∷ best else (h, current) ∷ rest

    abbrev pub improve_known : Option Text → Entry → List (Text × Entry) → List (Text × Entry)
    improve_known none entry best = best
    improve_known (some host) entry best = improve host entry best

    -- The loop of `_dedupe_by_hostname`.
    unfoldable pub best_of : List Entry → List (Text × Entry) → List (Text × Entry)
    unfolding improve dedupe_hostname
    best_of [] best = best
    best_of (entry ∷ entries) best =
        best_of entries (improve_known (dedupe_hostname entry) entry best)

    -- `ip in keep`
    unfoldable pub keeps : Text → List (Text × Entry) → Bool
    keeps ip [] = false
    keeps ip ((h, entry) ∷ best) = text_eq entry.0 ip || keeps ip best

    abbrev pub is_unknown : Option Text → Bool
    is_unknown none = true
    is_unknown (some host) = false

    unfoldable pub kept_entries : List (Text × Entry) → List Entry → List Entry
    unfolding keeps dedupe_hostname
    kept_entries best [] = []
    kept_entries best (entry ∷ entries) =
        let rest = kept_entries best entries in
        if is_unknown (dedupe_hostname entry) || keeps entry.0 best then entry ∷ rest else rest

    -- `_dedupe_by_hostname`
    unfoldable pub dedupe_by_hostname : List Entry → List Entry
    unfolding best_of kept_entries
    dedupe_by_hostname dashboard = kept_entries (best_of dashboard []) dashboard

    -- What is shown for a tracked computer, and the time of its snapshot.
    module _ (time_text : ℕ → values.V) (rows : List (Row values)) where
      abbrev overlaid : Entry → Option (Found values) → Info values × Option ℕ
      overlaid (ip, entry) none = (put values (codes "ip") (some (values.text ip)) entry, none)
      overlaid (ip, entry) (some (recorded_at, payload)) = (
        put values (codes "snapshot_recorded_at") (some (time_text recorded_at))
            (put values (codes "ip") (some (values.text ip)) payload),
        some recorded_at,
      )

      unfoldable pub dashboard_entry : Entry → Info values × Option ℕ
      unfolding get_latest_snapshot_for_pc
      dashboard_entry (ip, entry) =
          if not (truth values true (entry (codes "reachable")))
            || truth values false (entry (codes "connection_error"))
          then (put values (codes "ip") (some (values.text ip)) entry, none)
          else overlaid (ip, entry) (get_latest_snapshot_for_pc values none (some ip) false rows)

      -- `last_poll_at is None or poll_time > last_poll_at`
      abbrev pub later_poll : Option ℕ → Option ℕ → Option ℕ
      later_poll last none = last
      later_poll none (some time) = some time
      later_poll (some last) (some time) = if ltb last time then some time else some last

      unfoldable pub dashboard_of : List Entry → Option ℕ → List Entry × Option ℕ
      unfolding dashboard_entry
      dashboard_of [] last = ([], last)
      dashboard_of ((ip, entry) ∷ tracked) last =
          let (info, time) = dashboard_entry (ip, entry) in
          let (rest, end) = dashboard_of tracked (later_poll last time) in ((ip, info) ∷ rest, end)

      -- `get_dashboard_pcs`, of the tracked computers
      unfoldable pub get_dashboard_pcs : List Entry → List Entry × Option ℕ
      unfolding dashboard_of dedupe_by_hostname
      get_dashboard_pcs tracked =
          let (dashboard, last) = dashboard_of tracked none in (dedupe_by_hostname dashboard, last)
