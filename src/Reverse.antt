-- ===== src/Reverse.antt =====
-- The session registry of src/kid_pc_monitor/panel_reverse_server.py. A session object is a number, in
-- the order of creation; its hostname and its peer's address never change and are given by the two
-- functions. The dictionaries are functions from keys. Each method that takes the registry's lock is
-- one event; `ends` is the `finally` of `_handle_client` up to `_emit_disconnect_if_gone`.
pub mod Refines
pub mod Closing
pub mod Actions
use kid_pc_monitor.Base.{
  ℕ, Bool, true, false, not, ◌&&◌, ◌||◌, Option, none, some, List, [], ◌∷◌, ◌==◌, if◌then◌else◌,
}
use kid_pc_monitor.Base.Text.{Text, text_eq}

pub record Registry : Type 0 where
  pub by_hostname : Text → Option ℕ
  pub by_ip : Text → Option ℕ
  pub closed : ℕ → Bool  -- `session._closed`
  pub told : List (Text × Text)  -- the calls of `on_disconnect`, newest first

abbrev pub empty : Registry
empty = record { by_hostname = λ h. none; by_ip = λ ip. none; closed = λ i. false; told = [] }

-- What changes the registry.
pub data Event : Type 0 where
  connects : ℕ → Event  -- `_register` of a session that identified itself
  ends : ℕ → Event  -- `_unregister` and `close` at the end of its thread
  reports : ℕ → Event  -- `_emit_disconnect_if_gone`
  stops : Event  -- `stop`

-- `entry is session`
abbrev pub is_session : Option ℕ → ℕ → Bool
is_session none i = false
is_session (some j) i = j == i

-- A dictionary with the key set, and with the key removed.
abbrev pub put : Text → Option ℕ → (Text → Option ℕ) → Text → Option ℕ
put key v m k = if text_eq key k then v else m k

-- `session.close()`
abbrev pub close : ℕ → (ℕ → Bool) → ℕ → Bool
close i closed j = j == i || closed j

-- `previous.close()`, where there is another one.
abbrev pub close_previous : Option ℕ → ℕ → (ℕ → Bool) → ℕ → Bool
close_previous none i closed = closed
close_previous (some p) i closed = if p == i then closed else close p closed

abbrev pub is_none : Option ℕ → Bool
is_none none = true
is_none (some i) = false

module _ (hostname_of peer_of : ℕ → Text) where
  -- The entries by address that `_register` keeps.
  abbrev pub unless_replaced : Option ℕ → ℕ → Option ℕ → Option ℕ
  unless_replaced previous i none = none
  unless_replaced previous i (some e) =
      if is_session previous e || (text_eq (hostname_of e) (hostname_of i) && not (e == i))
      then none
      else some e

  -- `_register`
  unfoldable pub register : ℕ → Registry → Registry
  register i r =
      let previous = r.by_hostname (hostname_of i) in
      record r {
        closed = close_previous previous i r.closed;
        by_hostname = put (hostname_of i) (some i) r.by_hostname;
        by_ip = put (peer_of i) (some i) (λ ip. unless_replaced previous i (r.by_ip ip));
      }

  abbrev pub drop_if : Bool → Text → (Text → Option ℕ) → Text → Option ℕ
  drop_if b key m = if b then put key none m else m

  -- `_unregister`
  unfoldable pub unregister : ℕ → Registry → Registry
  unregister i r = record r {
    by_hostname =
        drop_if (is_session (r.by_hostname (hostname_of i)) i) (hostname_of i) r.by_hostname;
    by_ip = drop_if (is_session (r.by_ip (peer_of i)) i) (peer_of i) r.by_ip;
  }

  -- `_emit_disconnect_if_gone`, with a listener.
  unfoldable pub emit_disconnect_if_gone : ℕ → Registry → Registry
  emit_disconnect_if_gone i r =
      if is_none (r.by_hostname (hostname_of i))
      then record r { told = (hostname_of i, peer_of i) ∷ r.told }
      else r

  -- `stop`: a session is a value of the dictionary where it stands under its own hostname.
  unfoldable pub stop : Registry → Registry
  stop r = record r {
    by_hostname = λ h. none;
    by_ip = λ ip. none;
    closed = λ i. is_session (r.by_hostname (hostname_of i)) i || r.closed i;
  }

  -- The effect of one event.
  unfoldable pub step : Event → Registry → Registry
  unfolding register unregister emit_disconnect_if_gone stop
  step (connects i) r = register i r
  step (ends i) r = let r' = unregister i r in record r' { closed = close i r'.closed }
  step (reports i) r = emit_disconnect_if_gone i r
  step stops r = stop r

  -- The registry after a history, its newest event first.
  unfoldable pub run : List Event → Registry
  run [] = empty
  run (e ∷ es) = step e (run es)

  -- `session_for_ip` and `session_for_hostname`
  unfoldable pub session_for_ip : Registry → Text → Option ℕ
  session_for_ip r ip = r.by_ip ip

  unfoldable pub session_for_hostname : Registry → Text → Option ℕ
  session_for_hostname r hostname = r.by_hostname hostname
