-- ===== src/Snapshots/Dashboard/Deduped.antt =====
-- What `_dedupe_by_hostname` leaves of the dashboard.
use kid_pc_monitor.Base.{
  ℕ, ◌≡◌, ◌⊎◌, inl, inr, refl, sym, ap, subst, ◌∙◌, true, false, Option, none, some, List, [],
  arith, IsIn,
}
use kid_pc_monitor.Base.Text.{Text}
use kid_pc_monitor.Scans.{Values}
use kid_pc_monitor.Snapshots.Dashboard.{
  key_lt, dedupe_hostname, sort_key, best_of, keeps, dedupe_by_hostname,
}
use kid_pc_monitor.Snapshots.Dashboard.Order.{key_lt_connected}
use kid_pc_monitor.Snapshots.Dashboard.Best.{Sound}
use kid_pc_monitor.Snapshots.Dashboard.Loop.{Best, best_of-BestFor}
use kid_pc_monitor.Snapshots.Dashboard.Kept.{
  Shown, Items, IsDistinct, all-IsIn, same_entry, kept_entries_inv, kept_entries-IsIn, keeps_inv,
  keeps-IsIn,
}

module _ (values : Values) (casefold : Text → Text) (contact_times : Text → Option ℕ) where
  abbrev Card : Type 0
  Card = Shown values casefold contact_times

  abbrev pub HasHost : Card → Text → Type 0
  HasHost e h = dedupe_hostname values casefold e ≡ some h

  -- The cards that are left: some of the dashboard's, all those of no known host, at most one of each
  -- host, and for each card one of its host that is not below it.
  abbrev pub IsDeduped : List Card → List Card → Type 0
  IsDeduped dashboard cards =
      ((e : Card) → IsIn e cards → IsIn e dashboard)
      × ((e : Card) → IsIn e dashboard → dedupe_hostname values casefold e ≡ none → IsIn e cards)
      × ((e f : Card) (h : Text) → IsIn e cards → IsIn f cards → HasHost e h → HasHost f h → e ≡ f)
      × ((e : Card) (h : Text)
          → IsIn e dashboard
          → HasHost e h
          → (f : Card) × IsIn f cards
            × HasHost f h
            × (key_lt (sort_key values casefold contact_times f)
                  (sort_key values casefold contact_times e)
                ≡ false))

  module _ (dashboard : List Card)
      (distinct : IsDistinct values casefold contact_times dashboard) where
    abbrev best : Items values casefold contact_times
    best = best_of values casefold contact_times dashboard []

    abbrev cards : List Card
    cards = dedupe_by_hostname values casefold contact_times dashboard

    abbrev Seen : Card → Type 0
    Seen x = IsIn x dashboard ⊎ ⊥

    best-BestFor : Best values casefold contact_times Seen best
    best-BestFor =
        best_of-BestFor values casefold contact_times (λ x. ⊥) dashboard []
          (tt, (λ x h b. absurd b), tt)

    Seen-IsIn : (x : Card) → Seen x → IsIn x dashboard
    Seen-IsIn x (inl i) = i
    Seen-IsIn x (inr b) = absurd b

    -- A card that is left is the best of its host.
    left-Sound :
        (e : Card) (h : Text)
        → IsIn e cards
        → HasHost e h
        → Sound values casefold contact_times Seen (h, e)
    unfolding dedupe_by_hostname
    left-Sound e h i t =
        let (j, k) = kept_entries_inv values casefold contact_times best dashboard e i in
        let keeps_e : keeps values casefold contact_times e.0 best ≡ true = ground (arith, k, t) in
        let (p, m, same) = keeps_inv values casefold contact_times e.0 best keeps_e in
        let sound =
          all-IsIn values casefold contact_times (Sound values casefold contact_times Seen) best p
            (best-BestFor.0) m in
        let is_e =
          same_entry values casefold contact_times p.1 e dashboard distinct (Seen-IsIn p.1 sound.0)
            j same in
        let host : p.0 ≡ h =
          host_same p.0 (sym sound.1 ∙ ap (dedupe_hostname values casefold) is_e ∙ t) in
        subst (λ (q : Text × Card). Sound values casefold contact_times Seen q)
          (ap (λ (x : Text). (x, p.1)) host ∙ ap (λ (x : Card). (h, x)) is_e) sound
      where
        host_same : (k : Text) → some k ≡ some h → k ≡ h
        host_same k q = cc

    -- Of the cards of one host, told by the hostname without regard to case, one is left: the one with
    -- the latest contact, then of the better status, then of the greater address. Cards of an unknown
    -- host all stay. The addresses of the dashboard differ, being the keys of a dictionary.
    pub dedupe_by_hostname-IsDeduped : IsDeduped dashboard cards
    unfolding dedupe_by_hostname
    dedupe_by_hostname-IsDeduped = (
      (λ e i. (kept_entries_inv values casefold contact_times best dashboard e i).0),
      (λ e i t. kept_entries-IsIn values casefold contact_times best dashboard e i (rw t refl)),
      (λ e f h i j t u.
          let se = left-Sound e h i t in
          let sf = left-Sound f h j u in
          same_entry values casefold contact_times e f dashboard distinct (Seen-IsIn e se.0)
            (Seen-IsIn f sf.0)
            (key_lt_connected (sort_key values casefold contact_times e)
              (sort_key values casefold contact_times f) (se.2 f sf.0 u) (sf.2 e se.0 t))),
      (λ e h i t.
          let (f, m) = best-BestFor.1 e h (inl i) t in
          let sound =
            all-IsIn values casefold contact_times (Sound values casefold contact_times Seen) best
              (h, f) (best-BestFor.0) m in
          (
            f,
            kept_entries-IsIn values casefold contact_times best dashboard f (Seen-IsIn f sound.0)
                (ground (arith, keeps-IsIn values casefold contact_times (h, f) best m)),
            sound.1,
            sound.2 e (inl i) t,
          )),
    )
