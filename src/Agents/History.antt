-- ===== src/Agents/History.antt =====
-- The table of heartbeats after any calls, as the last heartbeat of each hostname.
use kid_pc_monitor.Base.{
  ℕ, ◌≡◌, refl, ap, ◌∙◌, true, false, Option, none, some, List, [], ◌∷◌, if◌then◌else◌, arith,
}
use kid_pc_monitor.Base.Text.{Text, text_eq, text_eq_iff}
use kid_pc_monitor.Scans.{Values, Info}
use kid_pc_monitor.Agents.{
  Agent, clear_agent_for_hostname, clear_agent_for_ip, polled_payload, record_agent_poll,
  agent_for_hostname, if_recent, recent_agent_for_hostname,
}

-- A call that writes the table.
pub data Call (values : Values) : Type 0 where
  polls : Text → Text → Info values → ℕ → Call values  -- hostname, address, what it told, and when
  clears_hostname : Text → Call values
  clears_ip : Text → Call values

module _ (values : Values) (yes : values.V) (time_text : ℕ → values.V) where
  -- The table after the calls, the newest of which stands first.
  unfoldable pub run : List (Call values) → List (Agent values)
  unfolding record_agent_poll clear_agent_for_hostname clear_agent_for_ip
  run [] = []
  run (polls hostname ip info now ∷ calls) =
      record_agent_poll values yes time_text hostname ip info now (run calls)
  run (clears_hostname hostname ∷ calls) = clear_agent_for_hostname values hostname (run calls)
  run (clears_ip ip ∷ calls) = clear_agent_for_ip values ip (run calls)

  -- A heartbeat that is not of an address.
  abbrev unless_ip : Text → Option (Agent values) → Option (Agent values)
  unless_ip ip none = none
  unless_ip ip (some a) = if text_eq a.ip ip then none else some a

  -- The last heartbeat of a hostname, unless it was cleared since, by its hostname or by its address.
  unfoldable pub last_heartbeat : Text → List (Call values) → Option (Agent values)
  last_heartbeat h [] = none
  last_heartbeat h (polls hostname ip info now ∷ calls) =
      if text_eq hostname h
      then some (record {
        hostname = hostname;
        ip = ip;
        last_seen = now;
        payload = polled_payload values yes time_text hostname ip info;
      })
      else last_heartbeat h calls
  last_heartbeat h (clears_hostname hostname ∷ calls) =
      if text_eq hostname h then none else last_heartbeat h calls
  last_heartbeat h (clears_ip ip ∷ calls) = unless_ip ip (last_heartbeat h calls)

  abbrev pub at : Text → List (Agent values) → Option (Agent values)
  at h agents = agent_for_hostname values h agents

  at-clear_agent_for_hostname :
      (hostname h : Text) (agents : List (Agent values))
      → at h (clear_agent_for_hostname values hostname agents)
        ≡ (if text_eq hostname h then none else at h agents)
  unfolding agent_for_hostname clear_agent_for_hostname
  at-clear_agent_for_hostname hostname h [] = ground arith
  at-clear_agent_for_hostname hostname h (a ∷ agents) = ground (
    arith,
    at-clear_agent_for_hostname hostname h agents,
    text_eq_iff hostname h,
    text_eq_iff a.hostname hostname,
    text_eq_iff a.hostname h,
  )

  -- Each hostname has one row at most.
  unfoldable pub IsKeyed : List (Agent values) → Type 0
  IsKeyed [] = Unit
  IsKeyed (a ∷ agents) = (at a.hostname agents ≡ none) × IsKeyed agents

  at-clear_agent_for_ip :
      (ip h : Text) (agents : List (Agent values))
      → IsKeyed agents
      → at h (clear_agent_for_ip values ip agents) ≡ unless_ip ip (at h agents)
  unfolding agent_for_hostname clear_agent_for_ip IsKeyed
  at-clear_agent_for_ip ip h [] k = refl
  at-clear_agent_for_ip ip h (a ∷ agents) k =
      ground (arith, at-clear_agent_for_ip ip h agents k.1, k.0, text_eq_iff a.hostname h)

  clear_agent_for_hostname-IsKeyed :
      (hostname : Text) (agents : List (Agent values))
      → IsKeyed agents
      → IsKeyed (clear_agent_for_hostname values hostname agents)
  unfolding IsKeyed clear_agent_for_hostname
  clear_agent_for_hostname-IsKeyed hostname [] k = tt
  clear_agent_for_hostname-IsKeyed hostname (a ∷ agents) k =
      let rest = clear_agent_for_hostname-IsKeyed hostname agents k.1 in
      let row = at-clear_agent_for_hostname hostname a.hostname agents in
      elim (text_eq a.hostname hostname)
        as (λ b. IsKeyed (
          if b
          then clear_agent_for_hostname values hostname agents
          else a ∷ clear_agent_for_hostname values hostname agents)) [
            | true ↦ rest
            | false ↦ (ground (arith, row, k.0), rest)
          ]

  clear_agent_for_ip-IsKeyed :
      (ip : Text) (agents : List (Agent values))
      → IsKeyed agents
      → IsKeyed (clear_agent_for_ip values ip agents)
  unfolding IsKeyed clear_agent_for_ip
  clear_agent_for_ip-IsKeyed ip [] k = tt
  clear_agent_for_ip-IsKeyed ip (a ∷ agents) k =
      let rest = clear_agent_for_ip-IsKeyed ip agents k.1 in
      let row = at-clear_agent_for_ip ip a.hostname agents k.1 in
      elim (text_eq a.ip ip)
        as (λ b. IsKeyed (
          if b
          then clear_agent_for_ip values ip agents
          else a ∷ clear_agent_for_ip values ip agents)) [
            | true ↦ rest
            | false ↦ (ground (arith, row, k.0), rest)
          ]

  pub run-IsKeyed : (calls : List (Call values)) → IsKeyed (run calls)
  unfolding run IsKeyed record_agent_poll
  run-IsKeyed [] = tt
  run-IsKeyed (polls hostname ip info now ∷ calls) = (
    ground (
      arith,
      at-clear_agent_for_hostname hostname hostname (run calls),
      text_eq_iff hostname hostname,
    ),
    clear_agent_for_hostname-IsKeyed hostname (run calls) (run-IsKeyed calls),
  )
  run-IsKeyed (clears_hostname hostname ∷ calls) =
      clear_agent_for_hostname-IsKeyed hostname (run calls) (run-IsKeyed calls)
  run-IsKeyed (clears_ip ip ∷ calls) = clear_agent_for_ip-IsKeyed ip (run calls) (run-IsKeyed calls)

  at-run : (h : Text) (calls : List (Call values)) → at h (run calls) ≡ last_heartbeat h calls
  unfolding run last_heartbeat agent_for_hostname record_agent_poll
  at-run h [] = refl
  at-run h (polls hostname ip info now ∷ calls) =
      ground (arith, at-run h calls, at-clear_agent_for_hostname hostname h (run calls))
  at-run h (clears_hostname hostname ∷ calls) =
      ground (arith, at-run h calls, at-clear_agent_for_hostname hostname h (run calls))
  at-run h (clears_ip ip ∷ calls) =
      at-clear_agent_for_ip ip h (run calls) (run-IsKeyed calls)
      ∙ ap (unless_ip ip) (at-run h calls)

  -- After any calls, the recent agent of a hostname is its last heartbeat, unless that was cleared since
  -- by its hostname or its address, or is older than the age.
  pub recent_agent_for_hostname-last_heartbeat :
      (h : Text) (max_age now : ℕ) (calls : List (Call values))
      → recent_agent_for_hostname values yes time_text h max_age now (run calls)
        ≡ if_recent values yes time_text max_age now (last_heartbeat h calls)
  unfolding recent_agent_for_hostname
  recent_agent_for_hostname-last_heartbeat h max_age now calls =
      ap (if_recent values yes time_text max_age now) (at-run h calls)
