-- ===== src/Snapshots/Latest.antt =====
-- The newest snapshot of a computer, of src/kid_pc_monitor/snapshot_store.py. Of rows with one time the
-- first of the list is taken for the first that SQLite gives.
pub mod Fallback
use kid_pc_monitor.Base.{
  ℕ, ◌≤◌, ◌≡◌, ◌≢◌, ◌⊎◌, inl, inr, refl, sym, ap, subst, ◌∙◌, Bool, true, false, not, ◌&&◌, ◌||◌,
  Option, none, some, List, [], ◌∷◌, ltb, ◌==◌, if◌then◌else◌, arith, All, IsIn,
}
use kid_pc_monitor.Base.Text.{Text, codes, text_eq}
use kid_pc_monitor.Scans.{Values, Info, truth}
use kid_pc_monitor.Snapshots.{Row}

module _ (values : Values) where
  -- A time and a payload.
  abbrev pub Found : Type 0
  Found = ℕ × Info values

  abbrev pub found : Row values → Found
  found row = (row.recorded_at, row.payload)

  -- The later of two, the first where they are of one time.
  abbrev newest : Found → Option Found → Option Found
  newest a none = some a
  newest a (some b) = if ltb a.0 b.0 then some b else some a

  -- `_query_latest_snapshot`: of the rows of a clause, and where asked of the reachable ones.
  unfoldable pub query_latest_snapshot :
      (Row values → Bool) → Bool → List (Row values) → Option Found
  query_latest_snapshot clause reachable_only [] = none
  query_latest_snapshot clause reachable_only (row ∷ rows) =
      let rest = query_latest_snapshot clause reachable_only rows in
      if clause row
        && not (reachable_only && not (truth values false (row.payload (codes "reachable"))))
      then newest (found row) rest
      else rest

  -- `if hostname:`
  abbrev pub given : Option Text → Bool
  given none = false
  given (some t) = not (text_eq t [])

  abbrev pub of_host : Option Text → Row values → Bool
  of_host none row = false
  of_host (some t) row = text_eq row.hostname t

  abbrev pub of_ip : Option Text → Row values → Bool
  of_ip none row = false
  of_ip (some t) row = text_eq row.ip t

  abbrev pub or_query : Option Found → Option Found → Option Found
  or_query none other = other
  or_query (some f) other = some f

  -- `get_latest_snapshot_for_pc`
  unfoldable pub get_latest_snapshot_for_pc :
      Option Text → Option Text → Bool → List (Row values) → Option Found
  unfolding query_latest_snapshot
  get_latest_snapshot_for_pc hostname ip reachable_only rows =
      or_query
        (if given hostname
          then query_latest_snapshot (of_host hostname) reachable_only rows
          else none)
        (if given ip then query_latest_snapshot (of_ip ip) reachable_only rows else none)

  -- `snapshot_has_panel_data`: `has_status` is that the value is not None.
  module _ (is_null : values.V → Bool) where
    abbrev not_none : Option (values.V) → Bool
    not_none none = false
    not_none (some v) = not (is_null v)

    unfoldable pub snapshot_has_panel_data : Info values → Bool
    snapshot_has_panel_data payload = not_none (payload (codes "status"))

    abbrev pub or_reachable : Option Found → Option Found → Option Found
    or_reachable none other = other
    or_reachable (some f) other = if snapshot_has_panel_data f.1 then some f else other

    -- `get_latest_panel_snapshot_for_pc`
    unfoldable pub get_latest_panel_snapshot_for_pc :
        Option Text → Option Text → List (Row values) → Option Found
    unfolding get_latest_snapshot_for_pc snapshot_has_panel_data
    get_latest_panel_snapshot_for_pc hostname ip rows =
        or_reachable (get_latest_snapshot_for_pc hostname ip false rows)
          (get_latest_snapshot_for_pc hostname ip true rows)

  -- A row that the query looks at.
  abbrev pub looked_at : (Row values → Bool) → Bool → Row values → Bool
  looked_at clause reachable_only row =
      clause row
      && not (reachable_only && not (truth values false (row.payload (codes "reachable"))))

  -- The newest of these rows: one of them, and none of them is later.
  abbrev pub IsNewest : (Row values → Bool) → List (Row values) → Option Found → Type 0
  IsNewest p rows none = All (λ row. p row ≡ false) rows
  IsNewest p rows (some f) =
      ((row : Row values) × IsIn row rows × (p row ≡ true) × (found row ≡ f))
      × All (λ row. p row ≡ true → row.recorded_at ≤ f.0) rows

  vacuous :
      (p : Row values → Bool) (n : ℕ) (rows : List (Row values))
      → All (λ row. p row ≡ false) rows
      → All (λ row. p row ≡ true → row.recorded_at ≤ n) rows
  vacuous p n [] h = tt
  vacuous p n (row ∷ rows) h = (λ e. ground (arith, e, h.0), vacuous p n rows h.1)

  above :
      (p : Row values → Bool) (m n : ℕ) (rows : List (Row values))
      → m ≤ n
      → All (λ row. p row ≡ true → row.recorded_at ≤ m) rows
      → All (λ row. p row ≡ true → row.recorded_at ≤ n) rows
  above p m n [] l h = tt
  above p m n (row ∷ rows) l h = (λ e. ground (arith, l, h.0 e), above p m n rows l h.1)

  newest-IsNewest :
      (p : Row values → Bool) (row : Row values) (rows : List (Row values)) (o : Option Found)
      → p row ≡ true
      → IsNewest p rows o
      → IsNewest p (row ∷ rows) (newest (found row) o)
  newest-IsNewest p row rows none e h =
      ((row, inl refl, e, refl), (λ _. ground arith, vacuous p row.recorded_at rows h))
  newest-IsNewest p row rows (some f) e h = by_order (ltb row.recorded_at f.0) refl
    where
      by_order :
          (b : Bool)
          → ltb row.recorded_at f.0 ≡ b
          → IsNewest p (row ∷ rows) (if b then some f else some (found row))
      by_order true l = ((h.0.0, inr h.0.1, h.0.2, h.0.3), (λ _. ground (arith, l), h.1))
      by_order false l = (
        (row, inl refl, e, refl),
        (λ _. ground arith, above p f.0 row.recorded_at rows (ground (arith, l)) h.1),
      )

  skipped-IsNewest :
      (p : Row values → Bool) (row : Row values) (rows : List (Row values)) (o : Option Found)
      → p row ≡ false
      → IsNewest p rows o
      → IsNewest p (row ∷ rows) o
  skipped-IsNewest p row rows none e h = (e, h)
  skipped-IsNewest p row rows (some f) e h =
      ((h.0.0, inr h.0.1, h.0.2, h.0.3), (λ t. absurd (ground (arith, e, t)), h.1))

  step-IsNewest :
      (p : Row values → Bool) (row : Row values) (rows : List (Row values)) (o : Option Found)
      (b : Bool)
      → p row ≡ b
      → IsNewest p rows o
      → IsNewest p (row ∷ rows) (if b then newest (found row) o else o)
  step-IsNewest p row rows o true e h = newest-IsNewest p row rows o e h
  step-IsNewest p row rows o false e h = skipped-IsNewest p row rows o e h

  -- A query gives the newest of the rows that it looks at, and none only where there is none.
  pub query_latest_snapshot-IsNewest :
      (clause : Row values → Bool) (only : Bool) (rows : List (Row values))
      → IsNewest (looked_at clause only) rows (query_latest_snapshot clause only rows)
  unfolding query_latest_snapshot
  query_latest_snapshot-IsNewest clause only [] = tt
  query_latest_snapshot-IsNewest clause only (row ∷ rows) =
      step-IsNewest (looked_at clause only) row rows (query_latest_snapshot clause only rows)
        (looked_at clause only row) refl (query_latest_snapshot-IsNewest clause only rows)
