-- ===== src/Reverse/Refines.antt =====
-- The registry of sessions against a description of it by the history alone.
use kid_pc_monitor.Base.{
  ℕ, ◌≡◌, refl, ap, true, false, Option, none, some, List, [], ◌∷◌, arith, if◌then◌else◌,
}
use kid_pc_monitor.Base.Text.{Text, text_eq, text_eq_iff, text_eq_refl}
use kid_pc_monitor.Reverse.{
  Event, connects, ends, reports, stops, is_session, unless_replaced, step, run, session_for_ip,
  session_for_hostname,
}

module _ (hostname_of peer_of : ℕ → Text) where
  -- The newest session of a hostname, unless it ended or the server stopped since.
  unfoldable pub newest : List Event → Text → Option ℕ
  newest [] h = none
  newest (connects i ∷ es) h =
      let older = newest es h in if text_eq (hostname_of i) h then some i else older
  newest (ends i ∷ es) h = let older = newest es h in if is_session older i then none else older
  newest (reports i ∷ es) h = newest es h
  newest (stops ∷ es) h = none

  -- The newest session of an address, ended or not, since the server last stopped.
  unfoldable pub last_from : List Event → Text → Option ℕ
  last_from [] ip = none
  last_from (connects i ∷ es) ip =
      let older = last_from es ip in if text_eq (peer_of i) ip then some i else older
  last_from (ends i ∷ es) ip = last_from es ip
  last_from (reports i ∷ es) ip = last_from es ip
  last_from (stops ∷ es) ip = none

  -- That session, if it is also the newest of its hostname.
  abbrev pub if_newest : List Event → Option ℕ → Option ℕ
  if_newest es none = none
  if_newest es (some i) = if is_session (newest es (hostname_of i)) i then some i else none

  pub newest-hostname :
      (es : List Event) (h : Text) (i : ℕ) → newest es h ≡ some i → hostname_of i ≡ h
  unfolding newest
  newest-hostname [] h i e = cc
  newest-hostname (connects j ∷ es) h i e =
      ground (arith, newest-hostname es h i, text_eq_iff (hostname_of j) h)
  newest-hostname (ends j ∷ es) h i e = ground (arith, newest-hostname es h i)
  newest-hostname (reports j ∷ es) h i e = newest-hostname es h i e
  newest-hostname (stops ∷ es) h i e = cc

  pub last_from-peer :
      (es : List Event) (ip : Text) (i : ℕ) → last_from es ip ≡ some i → peer_of i ≡ ip
  unfolding last_from
  last_from-peer [] ip i e = cc
  last_from-peer (connects j ∷ es) ip i e =
      ground (arith, last_from-peer es ip i, text_eq_iff (peer_of j) ip)
  last_from-peer (ends j ∷ es) ip i e = last_from-peer es ip i e
  last_from-peer (reports j ∷ es) ip i e = last_from-peer es ip i e
  last_from-peer (stops ∷ es) ip i e = cc

  pub by_hostname-newest :
      (es : List Event) (h : Text) → (run hostname_of peer_of es).by_hostname h ≡ newest es h
  unfolding run step newest
  by_hostname-newest [] h = refl
  by_hostname-newest (connects i ∷ es) h = ground (arith, by_hostname-newest es h)
  by_hostname-newest (ends i ∷ es) h = ground (
    arith,
    by_hostname-newest es h,
    by_hostname-newest es (hostname_of i),
    newest-hostname es h i,
    text_eq_iff (hostname_of i) h,
  )
  by_hostname-newest (reports i ∷ es) h = ground (arith, by_hostname-newest es h)
  by_hostname-newest (stops ∷ es) h = refl

  -- The entry of an address after another session connects from elsewhere.
  if_newest-connects :
      (es : List Event) (i : ℕ) (entry : Option ℕ)
      (elsewhere : (j : ℕ) → entry ≡ some j → ¬ (j ≡ i))
      → unless_replaced hostname_of peer_of (newest es (hostname_of i)) i (if_newest es entry)
        ≡ if_newest (connects i ∷ es) entry
  unfolding newest
  if_newest-connects es i none elsewhere = refl
  if_newest-connects es i (some j) elsewhere = ground (
    arith,
    elsewhere j refl,
    newest-hostname es (hostname_of i) j,
    text_eq_iff (hostname_of i) (hostname_of j),
    text_eq_iff (hostname_of j) (hostname_of i),
  )

  -- The entry of an address after a session ended.
  if_newest-ends :
      (es : List Event) (i : ℕ) (entry : Option ℕ)
      → (if is_session (if_newest es entry) i then none else if_newest es entry)
        ≡ if_newest (ends i ∷ es) entry
  unfolding newest
  if_newest-ends es i none = refl
  if_newest-ends es i (some j) = ground arith

  -- An entry that is the session `i` is the last one from its address.
  is_session-if_newest :
      (es : List Event) (i : ℕ) (entry : Option ℕ)
      → is_session (if_newest es entry) i ≡ true
      → entry ≡ some i
  is_session-if_newest es i none e = cc
  is_session-if_newest es i (some j) e = ground arith

  -- A session that connects from another address, and one that connects from this one.
  last_from-elsewhere :
      (es : List Event) (ip : Text) (i : ℕ)
      → text_eq (peer_of i) ip ≡ false
      → (j : ℕ) → last_from es ip ≡ some j
      → j ≡ i
      → ⊥
  last_from-elsewhere es ip i other j e same =
      ground (arith, last_from-peer es ip j e, text_eq_iff (peer_of i) ip, ap peer_of same)

  newest-itself :
      (es : List Event) (i : ℕ) → is_session (newest (connects i ∷ es) (hostname_of i)) i ≡ true
  unfolding newest
  newest-itself es i = ground (arith, text_eq_refl (hostname_of i))

  by_ip-last_from :
      (es : List Event) (ip : Text)
      → (run hostname_of peer_of es).by_ip ip ≡ if_newest es (last_from es ip)
  unfolding run step newest last_from
  by_ip-last_from [] ip = refl
  by_ip-last_from (connects i ∷ es) ip = ground (
    arith,
    by_ip-last_from es ip,
    by_hostname-newest es (hostname_of i),
    newest-itself es i,
    λ (other : text_eq (peer_of i) ip ≡ false).
        if_newest-connects es i (last_from es ip) (last_from-elsewhere es ip i other),
  )
  by_ip-last_from (ends i ∷ es) ip = ground (
    arith,
    by_ip-last_from es ip,
    by_ip-last_from es (peer_of i),
    if_newest-ends es i (last_from es ip),
    is_session-if_newest es i (last_from es ip),
    last_from-peer es ip i,
    text_eq_iff (peer_of i) ip,
  )
  by_ip-last_from (reports i ∷ es) ip = ground (arith, by_ip-last_from es ip)
  by_ip-last_from (stops ∷ es) ip = refl

  -- After any history of events, whatever sessions and hostnames it repeats, the dictionary by
  -- hostname holds at each hostname the session that connected last under it, unless that session
  -- ended or the server stopped since, and the dictionary by address holds at each address the last
  -- session that connected from it, if that session is also the one its own hostname holds.
  pub registry-newest :
      (es : List Event) (hostname ip : Text)
      → (session_for_hostname hostname_of peer_of (run hostname_of peer_of es) hostname
          ≡ newest es hostname)
        × (session_for_ip hostname_of peer_of (run hostname_of peer_of es) ip
            ≡ if_newest es (last_from es ip))
  unfolding session_for_hostname session_for_ip
  registry-newest es hostname ip = (by_hostname-newest es hostname, by_ip-last_from es ip)
