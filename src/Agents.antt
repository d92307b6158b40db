-- ===== src/Agents.antt =====
-- The heartbeats of connected agents, src/kid_pc_monitor/agent_sync_store.py: the table `reverse_agents`.
-- A time is the number of the second that its stored text stands for; `time_text` is that text as a value
-- of a payload. A payload that is written as JSON and read back is the same.
pub mod History
pub mod ByAddress
use kid_pc_monitor.Base.{
  ℕ, ◌+◌, Bool, true, false, Option, none, some, List, [], ◌∷◌, ltb, if◌then◌else◌,
}
use kid_pc_monitor.Base.Text.{Text, codes, text_eq}
use kid_pc_monitor.Scans.{Values, Info, put}

-- RECENT_AGENT_SECONDS
abbrev pub recent_agent_seconds : ℕ
recent_agent_seconds = 180

module _ (values : Values) where
  -- A row of `reverse_agents`.
  pub record Agent : Type 0 where
    pub hostname : Text
    pub ip : Text
    pub last_seen : ℕ
    pub payload : Info values

  -- `DELETE FROM reverse_agents WHERE hostname = ?`, `clear_agent_for_hostname`
  unfoldable pub clear_agent_for_hostname : Text → List Agent → List Agent
  clear_agent_for_hostname hostname [] = []
  clear_agent_for_hostname hostname (a ∷ agents) =
      let rest = clear_agent_for_hostname hostname agents in
      if text_eq a.hostname hostname then rest else a ∷ rest

  -- `clear_agent_for_ip`
  unfoldable pub clear_agent_for_ip : Text → List Agent → List Agent
  clear_agent_for_ip ip [] = []
  clear_agent_for_ip ip (a ∷ agents) =
      let rest = clear_agent_for_ip ip agents in if text_eq a.ip ip then rest else a ∷ rest

  -- The row of the clause that was seen last, the first of these where there are several.
  abbrev pub later_seen : Agent → Option Agent → Option Agent
  later_seen a none = some a
  later_seen a (some b) = if ltb a.last_seen b.last_seen then some b else some a

  unfoldable pub latest_for_ip : Text → List Agent → Option Agent
  latest_for_ip ip [] = none
  latest_for_ip ip (a ∷ agents) =
      let rest = latest_for_ip ip agents in if text_eq a.ip ip then later_seen a rest else rest

  unfoldable pub agent_for_hostname : Text → List Agent → Option Agent
  agent_for_hostname hostname [] = none
  agent_for_hostname hostname (a ∷ agents) =
      let rest = agent_for_hostname hostname agents in
      if text_eq a.hostname hostname then some a else rest

  module _ (yes : values.V) (time_text : ℕ → values.V) where
    -- The payload of `record_agent_poll`.
    abbrev pub polled_payload : Text → Text → Info values → Info values
    polled_payload hostname ip info = put values (codes "reachable") (some yes) (
        put values (codes "ip") (some (values.text ip))
          (put values (codes "hostname") (some (values.text hostname)) info))

    -- `record_agent_poll`: the row of the hostname is replaced.
    unfoldable pub record_agent_poll : Text → Text → Info values → ℕ → List Agent → List Agent
    unfolding clear_agent_for_hostname
    record_agent_poll hostname ip info now agents =
        record {
          hostname = hostname;
          ip = ip;
          last_seen = now;
          payload = polled_payload hostname ip info;
        }
        ∷ clear_agent_for_hostname hostname agents

    -- The payload that is returned of a row.
    abbrev pub agent_info : Agent → Info values
    agent_info a = put values (codes "last_seen") (some (time_text a.last_seen)) (
        put values (codes "ip") (some (values.text a.ip))
          (put values (codes "hostname") (some (values.text a.hostname)) a.payload))

    -- `last_seen < cutoff`
    unfoldable pub if_recent : ℕ → ℕ → Option Agent → Option (Info values)
    if_recent max_age now none = none
    if_recent max_age now (some a) =
        if ltb (a.last_seen + max_age) now then none else some (agent_info a)

    unfoldable pub recent_agent_for_ip : Text → ℕ → ℕ → List Agent → Option (Info values)
    unfolding latest_for_ip if_recent
    recent_agent_for_ip ip max_age now agents = if_recent max_age now (latest_for_ip ip agents)

    unfoldable pub recent_agent_for_hostname : Text → ℕ → ℕ → List Agent → Option (Info values)
    unfolding agent_for_hostname if_recent
    recent_agent_for_hostname hostname max_age now agents =
        if_recent max_age now (agent_for_hostname hostname agents)
