-- ===== src/Snapshots/Latest/Fallback.antt =====
-- What the control page's look-up of a snapshot gives.
use kid_pc_monitor.Base.{
  ◌≡◌, ◌⊎◌, inl, inr, refl, Bool, true, false, Option, none, some, List, if◌then◌else◌, arith,
}
use kid_pc_monitor.Base.Text.{Text}
use kid_pc_monitor.Scans.{Values}
use kid_pc_monitor.Snapshots.{Row}
use kid_pc_monitor.Snapshots.Latest.{
  Found, query_latest_snapshot, given, of_host, of_ip, or_query, get_latest_snapshot_for_pc,
  snapshot_has_panel_data, or_reachable, get_latest_panel_snapshot_for_pc, looked_at, IsNewest,
  query_latest_snapshot-IsNewest,
}

module _ (values : Values) where
  -- The newest snapshot of a clause, of those alone that were taken when the computer answered
  -- where `only` says so.
  abbrev pub NewestOf :
      (Row values → Bool) → Bool → List (Row values) → Option (Found values) → Type 0
  NewestOf clause only rows o = IsNewest values (looked_at values clause only) rows o

  -- By the address, where one is given.
  abbrev pub LatestByIp : Option Text → Bool → List (Row values) → Option (Found values) → Type 0
  LatestByIp ip only rows o =
      (given values ip ≡ true) × NewestOf (of_ip values ip) only rows o
      ⊎ (given values ip ≡ false) × (o ≡ none)

  -- The latest snapshot of a computer: the newest under its hostname, and where no hostname is given,
  -- or there is no snapshot under it, the newest under its address.
  abbrev pub Latest :
      Option Text → Option Text → Bool → List (Row values) → Option (Found values) → Type 0
  Latest hostname ip only rows o =
      ((given values hostname ≡ true)
        × (f : Found values) × (o ≡ some f)
        × NewestOf (of_host values hostname) only rows (some f))
      ⊎ ((given values hostname ≡ true → NewestOf (of_host values hostname) only rows none)
          × LatestByIp ip only rows o)

  module _ (hostname ip : Option Text) (only : Bool) (rows : List (Row values)) where
    by_ip :
        (b : Bool)
        → given values ip ≡ b
        → LatestByIp ip only rows
            (if b then query_latest_snapshot values (of_ip values ip) only rows else none)
    by_ip true e = inl (e, query_latest_snapshot-IsNewest values (of_ip values ip) only rows)
    by_ip false e = inr (e, refl)

    by_host :
        (b : Bool) (o : Option (Found values))
        → given values hostname ≡ b
        → NewestOf (of_host values hostname) only rows o
        → Latest hostname ip only rows (
            or_query values (if b then o else none) (
              if given values ip
              then query_latest_snapshot values (of_ip values ip) only rows
              else none))
    by_host true (some f) e n = inl (e, f, refl, n)
    by_host true none e n = inr ((λ _. n), by_ip (given values ip) refl)
    by_host false o e n = inr ((λ t. absurd (ground (arith, e, t))), by_ip (given values ip) refl)

    get_latest_snapshot_for_pc-Latest :
        Latest hostname ip only rows (get_latest_snapshot_for_pc values hostname ip only rows)
    unfolding get_latest_snapshot_for_pc
    get_latest_snapshot_for_pc-Latest =
        by_host (given values hostname)
          (query_latest_snapshot values (of_host values hostname) only rows) refl
          (query_latest_snapshot-IsNewest values (of_host values hostname) only rows)

  module _ (is_null : values.V → Bool) where
    abbrev pub HasNoPanelData : Option (Found values) → Type 0
    HasNoPanelData none = Unit
    HasNoPanelData (some f) = snapshot_has_panel_data values is_null f.1 ≡ false

    -- What the page is given.
    abbrev pub Shows :
        Option Text → Option Text → List (Row values) → Option (Found values) → Type 0
    Shows hostname ip rows o =
        ((f : Found values) × (o ≡ some f)
          × Latest hostname ip false rows (some f)
          × (snapshot_has_panel_data values is_null f.1 ≡ true))
        ⊎ ((latest : Option (Found values)) × Latest hostname ip false rows latest
            × HasNoPanelData latest
            × Latest hostname ip true rows o)

    or_reachable-Shows :
        (hostname ip : Option Text) (rows : List (Row values)) (o other : Option (Found values))
        → Latest hostname ip false rows o
        → Latest hostname ip true rows other
        → Shows hostname ip rows (or_reachable values is_null o other)
    or_reachable-Shows hostname ip rows none other p q = inr (none, p, tt, q)
    or_reachable-Shows hostname ip rows (some f) other p q =
        by_data (snapshot_has_panel_data values is_null f.1) refl
      where
        by_data :
            (b : Bool)
            → snapshot_has_panel_data values is_null f.1 ≡ b
            → Shows hostname ip rows (if b then some f else other)
        by_data true e = inl (f, refl, p, e)
        by_data false e = inr (some f, p, e, q)

    -- The control page is given the latest snapshot of the computer if that has panel data, and
    -- otherwise the latest of those that were taken when the computer answered, or none if there is
    -- none. The latest is the newest under the hostname, and where no hostname is given, or there is
    -- none under it, the newest under the address.
    pub get_latest_panel_snapshot_for_pc-Shows :
        (hostname ip : Option Text) (rows : List (Row values))
        → Shows hostname ip rows (get_latest_panel_snapshot_for_pc values is_null hostname ip rows)
    unfolding get_latest_panel_snapshot_for_pc
    get_latest_panel_snapshot_for_pc-Shows hostname ip rows =
        or_reachable-Shows hostname ip rows _ _
          (get_latest_snapshot_for_pc-Latest hostname ip false rows)
          (get_latest_snapshot_for_pc-Latest hostname ip true rows)
