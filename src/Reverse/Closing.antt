-- ===== src/Reverse/Closing.antt =====
-- Which sessions of the registry are closed.
use kid_pc_monitor.Base.{
  ℕ, ◌≡◌, ◌↔◌, Bool, true, false, not, ◌&&◌, ◌||◌, some, List, [], ◌∷◌, arith, ◌==◌,
}
use kid_pc_monitor.Base.Text.{Text, text_eq_iff}
use kid_pc_monitor.Reverse.{
  Event, connects, ends, reports, stops, is_session, step, run, session_for_hostname,
}
use kid_pc_monitor.Reverse.Refines.{newest, newest-hostname, by_hostname-newest}

-- Whether a session registered itself.
unfoldable pub connected : List Event → ℕ → Bool
connected [] i = false
connected (connects j ∷ es) i = j == i || connected es i
connected (ends j ∷ es) i = connected es i
connected (reports j ∷ es) i = connected es i
connected (stops ∷ es) i = connected es i

-- A session registers itself once, and ends after that: `_handle_client` runs once for a session.
unfoldable pub in_order : List Event → Bool
in_order [] = true
in_order (connects i ∷ es) = not (connected es i) && in_order es
in_order (ends i ∷ es) = connected es i && in_order es
in_order (reports i ∷ es) = in_order es
in_order (stops ∷ es) = in_order es

module _ (hostname_of peer_of : ℕ → Text) where
  newest-connected :
      (es : List Event) (h : Text) (i : ℕ)
      → newest hostname_of peer_of es h ≡ some i
      → connected es i ≡ true
  unfolding newest connected
  newest-connected [] h i e = cc
  newest-connected (connects j ∷ es) h i e = ground (arith, newest-connected es h i)
  newest-connected (ends j ∷ es) h i e = ground (arith, newest-connected es h i)
  newest-connected (reports j ∷ es) h i e = newest-connected es h i e
  newest-connected (stops ∷ es) h i e = cc

  closed-connected :
      (es : List Event) (i : ℕ)
      → in_order es ≡ true
      → (run hostname_of peer_of es).closed i ≡ true
      → connected es i ≡ true
  unfolding run step connected in_order
  closed-connected [] i o e = cc
  closed-connected (connects j ∷ es) i o e = ground (
    arith,
    closed-connected es i,
    by_hostname-newest hostname_of peer_of es (hostname_of j),
    newest-connected es (hostname_of j) i,
  )
  closed-connected (ends j ∷ es) i o e = ground (arith, closed-connected es i)
  closed-connected (reports j ∷ es) i o e = ground (arith, closed-connected es i)
  closed-connected (stops ∷ es) i o e = ground (
    arith,
    closed-connected es i,
    by_hostname-newest hostname_of peer_of es (hostname_of i),
    newest-connected es (hostname_of i) i,
  )

  closed-newest :
      (es : List Event) (i : ℕ)
      → in_order es ≡ true
      → connected es i ≡ true
      → (run hostname_of peer_of es).closed i
        ≡ not (is_session (newest hostname_of peer_of es (hostname_of i)) i)
  unfolding run step connected in_order newest
  closed-newest [] i o c = cc
  closed-newest (connects j ∷ es) i o c = ground (
    arith,
    closed-newest es i,
    closed-connected es i,
    by_hostname-newest hostname_of peer_of es (hostname_of j),
    text_eq_iff (hostname_of j) (hostname_of i),
    newest-hostname hostname_of peer_of es (hostname_of j) i,
  )
  closed-newest (ends j ∷ es) i o c = ground (arith, closed-newest es i)
  closed-newest (reports j ∷ es) i o c = ground (arith, closed-newest es i)
  closed-newest (stops ∷ es) i o c =
      ground (arith, closed-newest es i, by_hostname-newest hostname_of peer_of es (hostname_of i))

  -- Where every session registers itself at most once, and ends only after that: a session that did
  -- is open exactly while the registry holds it under its own hostname.
  pub closed-session_for_hostname :
      (es : List Event) (i : ℕ)
      → in_order es ≡ true
      → connected es i ≡ true
      → ((run hostname_of peer_of es).closed i ≡ false) ↔ (
          session_for_hostname hostname_of peer_of (run hostname_of peer_of es) (hostname_of i)
          ≡ some i)
  unfolding session_for_hostname
  closed-session_for_hostname es i o c = (
    λ e.
        ground (
          arith,
          closed-newest es i o c,
          by_hostname-newest hostname_of peer_of es (hostname_of i),
        ),
    λ e.
        ground (
          arith,
          closed-newest es i o c,
          by_hostname-newest hostname_of peer_of es (hostname_of i),
        ),
  )
