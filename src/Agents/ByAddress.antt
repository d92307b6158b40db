-- ===== src/Agents/ByAddress.antt =====
-- The recent agent of an address.
use kid_pc_monitor.Base.{
  ℕ, ◌+◌, ◌≤◌, ◌<◌, ◌≡◌, inl, inr, refl, sym, subst, ◌∙◌, Bool, true, false, Option, none, some,
  List, [], ◌∷◌, ltb, if◌then◌else◌, arith, All, IsIn,
}
use kid_pc_monitor.Base.Text.{Text, text_eq, text_eq_iff, text_eq_refl}
use kid_pc_monitor.Scans.{Values, Info}
use kid_pc_monitor.Agents.{
  Agent, later_seen, latest_for_ip, agent_for_hostname, agent_info, if_recent, recent_agent_for_ip,
  recent_agent_for_hostname,
}
use kid_pc_monitor.Agents.History.{Call, run, at, IsKeyed, run-IsKeyed}

module _ (values : Values) (yes : values.V) (time_text : ℕ → values.V) where
  -- The row seen last of the address, or none where there is none.
  abbrev IsLatest : Text → List (Agent values) → Option (Agent values) → Type 0
  IsLatest ip agents none = All (λ (a : Agent values). text_eq a.ip ip ≡ false) agents
  IsLatest ip agents (some f) =
      IsIn f agents
      × (text_eq f.ip ip ≡ true)
      × All (λ (a : Agent values). text_eq a.ip ip ≡ true → a.last_seen ≤ f.last_seen) agents

  none_below :
      (ip : Text) (n : ℕ) (agents : List (Agent values))
      → All (λ (a : Agent values). text_eq a.ip ip ≡ false) agents
      → All (λ (a : Agent values). text_eq a.ip ip ≡ true → a.last_seen ≤ n) agents
  none_below ip n [] h = tt
  none_below ip n (a ∷ agents) h = (λ e. ground (arith, e, h.0), none_below ip n agents h.1)

  All-below :
      (ip : Text) (m n : ℕ) (agents : List (Agent values))
      → m ≤ n
      → All (λ (a : Agent values). text_eq a.ip ip ≡ true → a.last_seen ≤ m) agents
      → All (λ (a : Agent values). text_eq a.ip ip ≡ true → a.last_seen ≤ n) agents
  All-below ip m n [] l h = tt
  All-below ip m n (a ∷ agents) l h = (λ e. ground (arith, l, h.0 e), All-below ip m n agents l h.1)

  later_seen-IsLatest :
      (ip : Text) (a : Agent values) (agents : List (Agent values)) (o : Option (Agent values))
      → text_eq a.ip ip ≡ true
      → IsLatest ip agents o
      → IsLatest ip (a ∷ agents) (later_seen values a o)
  later_seen-IsLatest ip a agents none e h =
      (inl refl, e, (λ _. ground arith, none_below ip a.last_seen agents h))
  later_seen-IsLatest ip a agents (some f) e h = by_order (ltb a.last_seen f.last_seen) refl
    where
      by_order :
          (b : Bool)
          → ltb a.last_seen f.last_seen ≡ b
          → IsLatest ip (a ∷ agents) (if b then some f else some a)
      by_order true l = (inr h.0, h.1, (λ _. ground (arith, l), h.2))
      by_order false l = (
        inl refl,
        e,
        (λ _. ground arith, All-below ip f.last_seen a.last_seen agents (ground (arith, l)) h.2),
      )

  skipped-IsLatest :
      (ip : Text) (a : Agent values) (agents : List (Agent values)) (o : Option (Agent values))
      → text_eq a.ip ip ≡ false
      → IsLatest ip agents o
      → IsLatest ip (a ∷ agents) o
  skipped-IsLatest ip a agents none e h = (e, h)
  skipped-IsLatest ip a agents (some f) e h =
      (inr h.0, h.1, (λ t. absurd (ground (arith, e, t)), h.2))

  latest_for_ip-IsLatest :
      (ip : Text) (agents : List (Agent values))
      → IsLatest ip agents (latest_for_ip values ip agents)
  unfolding latest_for_ip
  latest_for_ip-IsLatest ip [] = tt
  latest_for_ip-IsLatest ip (a ∷ agents) =
      by_ip (text_eq a.ip ip) refl (latest_for_ip-IsLatest ip agents)
    where
      by_ip :
          (b : Bool)
          → text_eq a.ip ip ≡ b
          → IsLatest ip agents (latest_for_ip values ip agents)
          → IsLatest ip (a ∷ agents) (
              if b
              then later_seen values a (latest_for_ip values ip agents)
              else latest_for_ip values ip agents)
      by_ip true e h = later_seen-IsLatest ip a agents _ e h
      by_ip false e h = skipped-IsLatest ip a agents _ e h

  -- A row of a keyed table is the one of its hostname.
  at-IsIn :
      (f : Agent values) (agents : List (Agent values))
      → IsKeyed values yes time_text agents
      → IsIn f agents
      → at values yes time_text f.hostname agents ≡ some f
  unfolding IsKeyed agent_for_hostname
  at-IsIn f [] k i = absurd i
  at-IsIn f (a ∷ agents) k (inl e) =
      subst
        (λ (x : Agent values).
          (if text_eq a.hostname x.hostname
            then some a
            else at values yes time_text x.hostname agents)
          ≡ some x)
        (sym e) (rw (text_eq_refl a.hostname) refl)
  at-IsIn f (a ∷ agents) k (inr i) =
      ground (arith, at-IsIn f agents k.1 i, k.0, text_eq_iff a.hostname f.hostname)

  -- What is returned for an address.
  abbrev pub Agrees : Text → ℕ → ℕ → List (Agent values) → Option (Info values) → Type 0
  Agrees ip max_age now agents none =
      All (λ (a : Agent values). a.ip ≡ ip → a.last_seen + max_age < now) agents
  Agrees ip max_age now agents (some p) =
      (f : Agent values) × IsIn f agents
      × (f.ip ≡ ip)
      × All (λ (a : Agent values). a.ip ≡ ip → a.last_seen ≤ f.last_seen) agents
      × (now ≤ f.last_seen + max_age)
      × (p ≡ agent_info values yes time_text f)
      × (recent_agent_for_hostname values yes time_text f.hostname max_age now agents ≡ some p)

  -- A test of the address for the address itself.
  All-at :
      (P : Agent values → Type 0) (ip : Text) (agents : List (Agent values))
      → All (λ (a : Agent values). text_eq a.ip ip ≡ true → P a) agents
      → All (λ (a : Agent values). a.ip ≡ ip → P a) agents
  All-at P ip [] h = tt
  All-at P ip (a ∷ agents) h = ((λ e. h.0 ((text_eq_iff a.ip ip).1 e)), All-at P ip agents h.1)

  All-old :
      (ip : Text) (f max_age now : ℕ) (agents : List (Agent values))
      → f + max_age < now
      → All (λ (a : Agent values). text_eq a.ip ip ≡ true → a.last_seen ≤ f) agents
      → All (λ (a : Agent values). text_eq a.ip ip ≡ true → a.last_seen + max_age < now) agents
  All-old ip f max_age now [] l h = tt
  All-old ip f max_age now (a ∷ agents) l h =
      (λ e. ground (arith, l, h.0 e), All-old ip f max_age now agents l h.1)

  no_rows :
      (ip : Text) (max_age now : ℕ) (agents : List (Agent values))
      → All (λ (a : Agent values). text_eq a.ip ip ≡ false) agents
      → All (λ (a : Agent values). text_eq a.ip ip ≡ true → a.last_seen + max_age < now) agents
  no_rows ip max_age now [] h = tt
  no_rows ip max_age now (a ∷ agents) h =
      (λ e. absurd (ground (arith, e, h.0)), no_rows ip max_age now agents h.1)

  recent-row :
      (f : Agent values) (max_age now : ℕ) (agents : List (Agent values))
      → at values yes time_text f.hostname agents ≡ some f
      → recent_agent_for_hostname values yes time_text f.hostname max_age now agents ≡ (
          if ltb (f.last_seen + max_age) now
          then none
          else some (agent_info values yes time_text f))
  unfolding recent_agent_for_hostname if_recent
  recent-row f max_age now agents h = rw h refl

  latest-Agrees :
      (ip : Text) (max_age now : ℕ) (agents : List (Agent values)) (o : Option (Agent values))
      → IsKeyed values yes time_text agents
      → IsLatest ip agents o
      → Agrees ip max_age now agents (if_recent values yes time_text max_age now o)
  unfolding if_recent
  latest-Agrees ip max_age now agents none k h =
      All-at _ ip agents (no_rows ip max_age now agents h)
  latest-Agrees ip max_age now agents (some f) k h = by_age (ltb (f.last_seen + max_age) now) refl
    where
      row : recent_agent_for_hostname values yes time_text f.hostname max_age now agents ≡ (
          if ltb (f.last_seen + max_age) now
          then none
          else some (agent_info values yes time_text f))
      row = recent-row f max_age now agents (at-IsIn f agents k h.0)

      by_age :
          (b : Bool)
          → ltb (f.last_seen + max_age) now ≡ b
          → Agrees ip max_age now agents
              (if b then none else some (agent_info values yes time_text f))
      by_age true l =
          All-at _ ip agents (All-old ip f.last_seen max_age now agents (ground (arith, l)) h.2)
      by_age false l = (
        f,
        h.0,
        (text_eq_iff f.ip ip).0 h.1,
        All-at _ ip agents h.2,
        ground (arith, l),
        refl,
        row ∙ rw l refl,
      )

  -- After any calls, what is returned for an address is the payload of a row of that address, of which
  -- none was seen later, that is not too old; and it is what is returned for the hostname of that
  -- row. Nothing is returned only if every row of the address is too old.
  pub recent_agent_for_ip-Agrees :
      (ip : Text) (max_age now : ℕ) (calls : List (Call values))
      → Agrees ip max_age now
          (run values yes time_text calls)
          (recent_agent_for_ip values yes time_text ip max_age now (run values yes time_text calls))
  unfolding recent_agent_for_ip
  recent_agent_for_ip-Agrees ip max_age now calls =
      let agents = run values yes time_text calls in
      latest-Agrees ip max_age now agents (latest_for_ip values ip agents)
        (run-IsKeyed values yes time_text calls) (latest_for_ip-IsLatest ip agents)
