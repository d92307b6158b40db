-- ===== src/Examples/Cards.antt =====
-- Snapshots and heartbeats of two computers, for src/kid_pc_monitor/snapshot_store.py and
-- src/kid_pc_monitor/agent_sync_store.py.
use kid_pc_monitor.Base.{
  ℕ, ◌≡◌, refl, Bool, true, false, Option, none, some, List, [], ◌∷◌, if◌then◌else◌,
}
use kid_pc_monitor.Base.Text.{Text, codes, text_eq}
use kid_pc_monitor.Wire.{Value, null, bool, int, str}
use kid_pc_monitor.Base.Int.{pos}
use kid_pc_monitor.Scans.{Info}
use kid_pc_monitor.Snapshots.{Moment, Row, Store, stored, save_snapshot}
use kid_pc_monitor.Snapshots.Saving.{Saves, save_snapshot-Saves}
use kid_pc_monitor.Snapshots.Latest.{get_latest_panel_snapshot_for_pc}
use kid_pc_monitor.Snapshots.Latest.Fallback.{Shows, get_latest_panel_snapshot_for_pc-Shows}
use kid_pc_monitor.Snapshots.Dashboard.{dedupe_by_hostname}
use kid_pc_monitor.Snapshots.Dashboard.Kept.{Shown, IsDistinct}
use kid_pc_monitor.Snapshots.Dashboard.Deduped.{IsDeduped, dedupe_by_hostname-IsDeduped}
use kid_pc_monitor.Agents.{if_recent, recent_agent_for_hostname, recent_agent_for_ip}
use kid_pc_monitor.Agents.History.{
  Call, polls, clears_ip, run, last_heartbeat, recent_agent_for_hostname-last_heartbeat,
}
use kid_pc_monitor.Agents.ByAddress.{Agrees, recent_agent_for_ip-Agrees}
use kid_pc_monitor.Examples.Panel.{scalars}

-- What SQLite stores for a text, and for nothing else.
abbrev texts_only : Value → Option Text
texts_only (str t) = some t
texts_only v = none

abbrev shown : Value → Text
shown v = []

abbrev kid : Info scalars
kid key =
    if text_eq key (codes "hostname")
    then some (str (codes "den"))
    else if text_eq key (codes "current_user")
    then some (str (codes "kid"))
    else if text_eq key (codes "reachable")
    then some (bool true)
    else none

abbrev today : Moment
today = record { day = 20; second = 1800000 }

-- A snapshot of the den two weeks ago.
abbrev old_row : Row scalars
old_row = record {
  username = codes "kid";
  hostname = codes "den";
  ip = [];
  snapshot_date = 6;
  recorded_at = 600000;
  payload = kid;
}

abbrev before : Store scalars
before = record { rows = old_row ∷ []; last_trim_at = none }

abbrev after : Store scalars
after = record {
  rows =
      record {
        username = codes "kid";
        hostname = codes "den";
        ip = [];
        snapshot_date = 20;
        recorded_at = 1800000;
        payload = kid;
      }
      ∷ [];
  last_trim_at = some 1800000;
}

saved : save_snapshot scalars texts_only shown kid today before ≡ stored after
unfolding save_snapshot text_eq
saved = refl

save_snapshot-Saves_example : Saves scalars texts_only shown kid today before after
save_snapshot-Saves_example =
    save_snapshot-Saves scalars texts_only shown kid today before after saved

abbrev is_null : Value → Bool
is_null null = true
is_null v = false

get_latest_panel_snapshot_for_pc-Shows_example :
    Shows scalars is_null
      (some (codes "den"))
      none
      after.rows
      (get_latest_panel_snapshot_for_pc scalars is_null (some (codes "den")) none after.rows)
get_latest_panel_snapshot_for_pc-Shows_example =
    get_latest_panel_snapshot_for_pc-Shows scalars is_null (some (codes "den")) none after.rows

abbrev same_case : Text → Text
same_case t = t

-- The den's computer was reached at the second address later.
abbrev contacts : Text → Option ℕ
contacts ip = if text_eq ip (codes "10.0.0.8") then some 900 else some 100

abbrev two_cards : List (Shown scalars same_case contacts)
two_cards = (codes "10.0.0.7", kid) ∷ (codes "10.0.0.8", kid) ∷ []

two_cards-IsDistinct : IsDistinct scalars same_case contacts two_cards
unfolding text_eq
two_cards-IsDistinct = ((refl, tt), (tt, tt))

dedupe_by_hostname-IsDeduped_example :
    IsDeduped scalars same_case contacts two_cards
      (dedupe_by_hostname scalars same_case contacts two_cards)
dedupe_by_hostname-IsDeduped_example =
    dedupe_by_hostname-IsDeduped scalars same_case contacts two_cards two_cards-IsDistinct

one_card : dedupe_by_hostname scalars same_case contacts two_cards ≡ (codes "10.0.0.8", kid) ∷ []
unfolding dedupe_by_hostname text_eq
one_card = refl

abbrev seconds : ℕ → Value
seconds n = int (pos n)

-- The den's computer moves to another address, whose rows were cleared before.
abbrev calls : List (Call scalars)
calls =
    polls (codes "den") (codes "10.0.0.8") kid 900
    ∷ clears_ip (codes "10.0.0.8")
    ∷ polls (codes "den") (codes "10.0.0.7") kid 100
    ∷ []

recent_agent_for_hostname-last_heartbeat_example :
    recent_agent_for_hostname scalars
      (bool true)
      seconds
      (codes "den")
      180
      1000
      (run scalars (bool true) seconds calls)
    ≡ if_recent scalars
        (bool true)
        seconds
        180
        1000
        (last_heartbeat scalars (bool true) seconds (codes "den") calls)
recent_agent_for_hostname-last_heartbeat_example =
    recent_agent_for_hostname-last_heartbeat scalars (bool true) seconds (codes "den") 180 1000
      calls

recent_agent_for_ip-Agrees_example :
    Agrees scalars
      (bool true)
      seconds
      (codes "10.0.0.8")
      180
      1000
      (run scalars (bool true) seconds calls)
      (recent_agent_for_ip scalars
        (bool true)
        seconds
        (codes "10.0.0.8")
        180
        1000
        (run scalars (bool true) seconds calls))
recent_agent_for_ip-Agrees_example =
    recent_agent_for_ip-Agrees scalars (bool true) seconds (codes "10.0.0.8") 180 1000 calls
