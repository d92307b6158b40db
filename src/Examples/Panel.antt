-- ===== src/Examples/Panel.antt =====
-- Two agents that connect to the panel, for src/kid_pc_monitor/panel_reverse_server.py, and its table of
-- tracked computers, for src/kid_pc_monitor/scan_store.py.
use kid_pc_monitor.Base.{
  none, ℕ, ◌≡◌, ◌↔◌, ◌⊎◌, refl, true, false, some, List, [], ◌∷◌, ◌==◌, if◌then◌else◌,
}
use kid_pc_monitor.Base.Text.{Text, codes, text_eq, member}
use kid_pc_monitor.Wire.{Value, null, bool, int, str}
use kid_pc_monitor.Reverse.{
  Registry, Event, connects, ends, reports, run, session_for_ip, session_for_hostname,
}
use kid_pc_monitor.Reverse.Refines.{newest, last_from, if_newest, registry-newest}
use kid_pc_monitor.Reverse.Closing.{connected, in_order, closed-session_for_hostname}
use kid_pc_monitor.Reverse.Actions.{truthy}
use kid_pc_monitor.Scans.{
  Values, Info, put, is_good, Tables, record_poll_inspect, get_scan_pc, get_pc_poll_updated_at,
}
use kid_pc_monitor.Scans.Latest.{IsNumbered}
use kid_pc_monitor.Scans.Polls.{record_poll_inspect-tracked}
use kid_pc_monitor.Scans.Stale.{is_stale, known_ips, prune_stale_tracked_ips}
use kid_pc_monitor.Scans.Pruning.{Outcome, prune_stale_tracked_ips-Outcome}

abbrev hostname_of : ℕ → Text
hostname_of i = if i == 2 then codes "den" else codes "attic"

abbrev peer_of : ℕ → Text
peer_of i = if i == 1 then codes "10.0.0.8" else codes "10.0.0.7"

-- The attic's PC moves to another address and ends its first session; then the den's PC connects from
-- the first address. The newest event stands first.
abbrev history : List Event
history = connects 2 ∷ reports 0 ∷ ends 0 ∷ connects 1 ∷ connects 0 ∷ []

abbrev registry : Registry
registry = run hostname_of peer_of history

registry-newest_example :
    (session_for_hostname hostname_of peer_of registry (codes "attic")
      ≡ newest hostname_of peer_of history (codes "attic"))
    × (session_for_ip hostname_of peer_of registry (codes "10.0.0.7")
        ≡ if_newest hostname_of peer_of history
            (last_from hostname_of peer_of history (codes "10.0.0.7")))
registry-newest_example =
    registry-newest hostname_of peer_of history (codes "attic") (codes "10.0.0.7")

-- What the two sides are.
attic_session : newest hostname_of peer_of history (codes "attic") ≡ some 1
unfolding newest text_eq
attic_session = refl

well_ordered : in_order history ≡ true
unfolding in_order connected
well_ordered = refl

zero_connected : connected history 0 ≡ true
unfolding connected
zero_connected = refl

closed-session_for_hostname_example :
    (registry.closed 0 ≡ false)
    ↔ (session_for_hostname hostname_of peer_of registry (codes "attic") ≡ some 0)
closed-session_for_hostname_example =
    closed-session_for_hostname hostname_of peer_of history 0 well_ordered zero_connected

-- JSON's scalars as the values of a payload.
abbrev pub scalars : Values
scalars = record {
  V = Value;
  truthy = truthy;
  text_of = λ v. elim v [ null ↦ none | bool b ↦ none | int n ↦ none | str s ↦ some s ];
  text = str;
  no = bool false;
}

-- A computer that says its hostname and nothing else.
abbrev den : Info scalars
den key = if text_eq key (codes "hostname") then some (str (codes "den")) else none

abbrev no_computers : Tables scalars
no_computers = record { scans = []; sightings = []; next_id = 1 }

-- The den's PC was seen at second 100, the attic's at second 900.
abbrev one_computer : Tables scalars
one_computer = record_poll_inspect scalars (codes "10.0.0.7") den 100 no_computers

abbrev two_computers : Tables scalars
two_computers = record_poll_inspect scalars (codes "10.0.0.8") den 900 one_computer

one_computer-IsNumbered : IsNumbered scalars one_computer
one_computer-IsNumbered =
    (record_poll_inspect-tracked scalars (codes "10.0.0.7") (codes "10.0.0.7") den 100 no_computers
      (tt, tt)).3

record_poll_inspect-tracked_example :
    (get_scan_pc scalars two_computers (codes "10.0.0.8")
      ≡ some (put scalars (codes "ip") (some (str (codes "10.0.0.8"))) den))
    × (get_pc_poll_updated_at scalars two_computers (codes "10.0.0.8") ≡ some 900)
    × ((codes "10.0.0.8" ≡ codes "10.0.0.7")
        ⊎ (get_scan_pc scalars two_computers (codes "10.0.0.7")
            ≡ get_scan_pc scalars one_computer (codes "10.0.0.7")))
    × IsNumbered scalars two_computers
record_poll_inspect-tracked_example =
    record_poll_inspect-tracked scalars (codes "10.0.0.8") (codes "10.0.0.7") den 900 one_computer
      one_computer-IsNumbered

prune_stale_tracked_ips-Outcome_example :
    Outcome scalars
      (is_stale scalars [] 500 two_computers)
      (codes "10.0.0.7")
      (known_ips scalars two_computers.scans two_computers.sightings)
      two_computers
      (prune_stale_tracked_ips scalars [] 500 two_computers)
prune_stale_tracked_ips-Outcome_example =
    prune_stale_tracked_ips-Outcome scalars [] 500 (codes "10.0.0.7") two_computers

-- The den's PC is the one that goes.
den_pruned : (prune_stale_tracked_ips scalars [] 500 two_computers).1 ≡ codes "10.0.0.7" ∷ []
unfolding prune_stale_tracked_ips record_poll_inspect is_good member text_eq
den_pruned = refl
