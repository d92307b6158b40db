-- ===== src/Snapshots/Saving.antt =====
-- The saving of a snapshot, on each of its branches.
use kid_pc_monitor.Base.{
  ℕ, ◌≡◌, ◌⊎◌, inl, inr, refl, sym, subst, Bool, true, false, not, ◌&&◌, ◌||◌, Option, none, some,
  [], if◌then◌else◌, arith,
}
use kid_pc_monitor.Base.Text.{Text, codes, text_eq}
use kid_pc_monitor.Scans.{Values, Info, truth}
use kid_pc_monitor.Snapshots.{
  Moment, Stored, stored, fails, Row, Store, has_keys, insert_or_replace, trim_old_rows,
  snapshot_username, or_text, then_store, save_snapshot,
}
use kid_pc_monitor.Snapshots.History.{
  row_of, removes, row_of-trim_old_rows, row_of-insert_or_replace,
}

pub stored_injective : {A : Type 0} {a b : A} → stored a ≡ stored b → a ≡ b
stored_injective e = cc

module _ (values : Values) (column : values.V → Option Text) (shown : values.V → Text) where
  pub then_store_inv :
      {A B : Type 0} (m : Stored A) (k : A → Stored B) {b : B}
      → then_store values column shown m k ≡ stored b
      → (a : A) × (m ≡ stored a) × (k a ≡ stored b)
  then_store_inv fails k h = cc
  then_store_inv (stored a) k h = (a, refl, h)

  -- The computer answered, and tells a user and a hostname.
  abbrev pub is_complete : Info values → Bool
  is_complete info =
      truth values false (info (codes "reachable"))
      && (not (text_eq (snapshot_username values info) [])
          && truth values false (info (codes "hostname")))

  -- The table after a row is saved and old ones are trimmed.
  abbrev pub Holds : Moment → Row values → Store values → Store values → Type 0
  Holds now row s s' =
      (u h : Text) (d : ℕ)
      → row_of values s'.rows u h d ≡ (
          if has_keys values u h d row
          then some row
          else if removes values s.last_trim_at now d
          then none
          else row_of values s.rows u h d)

  -- What a call that does not raise leaves.
  abbrev pub Saves : Info values → Moment → Store values → Store values → Type 0
  Saves info now s s' =
      ((is_complete info ≡ false) × (s' ≡ s))
      ⊎ ((row : Row values) × (is_complete info ≡ true)
          × (or_text values column shown [] (info (codes "hostname")) ≡ stored row.hostname)
          × (row.username ≡ snapshot_username values info)
          × (row.snapshot_date ≡ now.day)
          × (row.recorded_at ≡ now.second)
          × (row.payload ≡ info)
          × Holds now row s s')

  kept-removes :
      (row : Row values) (now : Moment) (s : Store values)
      → row.snapshot_date ≡ now.day
      → Holds now row s
          (trim_old_rows values now (record s { rows = insert_or_replace values row s.rows }))
  kept-removes row now s today u h d = ground (
    arith,
    today,
    row_of-trim_old_rows values now (record s { rows = insert_or_replace values row s.rows }) u h d,
    row_of-insert_or_replace values row s.rows u h d,
  )

  abbrev pub snapshot_row : Info values → Moment → Text → Text → Row values
  snapshot_row info now hostname ip = record {
    username = snapshot_username values info;
    hostname = hostname;
    ip = ip;
    snapshot_date = now.day;
    recorded_at = now.second;
    payload = info;
  }

  -- The row of a complete answer.
  abbrev pub saved_row : Info values → Moment → Store values → Stored (Store values)
  saved_row info now s =
      then_store values column shown (or_text values column shown [] (info (codes "hostname")))
        (λ hostname.
          then_store values column shown (or_text values column shown [] (info (codes "ip"))) (λ ip.
            stored (
              trim_old_rows values now (record s {
                rows = insert_or_replace values (snapshot_row info now hostname ip) s.rows;
              }))))

  saved_row-Saves :
      (info : Info values) (now : Moment) (s s' : Store values)
      → is_complete info ≡ true
      → saved_row info now s ≡ stored s'
      → Saves info now s s'
  saved_row-Saves info now s s' e h =
      let (hostname, p, h₁) =
        then_store_inv (or_text values column shown [] (info (codes "hostname"))) _ h in
      let (ip, q, h₂) = then_store_inv (or_text values column shown [] (info (codes "ip"))) _ h₁ in
      let row = snapshot_row info now hostname ip in
      inr (
        row,
        e,
        p,
        refl,
        refl,
        refl,
        refl,
        subst (Holds now row s) (stored_injective h₂) (kept-removes row now s refl),
      )

  -- The guards of `save_snapshot`.
  guarded-Saves :
      (reachable no_user named : Bool) (info : Info values) (now : Moment) (s s' : Store values)
      → is_complete info ≡ (reachable && (not no_user && named))
      → (if not reachable
          then stored s
          else if no_user || not named
          then stored s
          else saved_row info now s)
        ≡ stored s'
      → Saves info now s s'
  guarded-Saves false u n info now s s' e h = inl (e, sym (stored_injective h))
  guarded-Saves true true n info now s s' e h = inl (e, sym (stored_injective h))
  guarded-Saves true false false info now s s' e h = inl (e, sym (stored_injective h))
  guarded-Saves true false true info now s s' e h = saved_row-Saves info now s s' e h

  -- After `save_snapshot`, each user, host and day has the row that it had, but for the new snapshot's
  -- own, which holds it, and for the days more than a week ago, which go when the last trimming is a
  -- week old. A computer that did not answer, or told no user or no hostname, changes nothing.
  pub save_snapshot-Saves :
      (info : Info values) (now : Moment) (s s' : Store values)
      → save_snapshot values column shown info now s ≡ stored s'
      → Saves info now s s'
  unfolding save_snapshot
  save_snapshot-Saves info now s s' h =
      guarded-Saves (truth values false (info (codes "reachable")))
        (text_eq (snapshot_username values info) []) (truth values false (info (codes "hostname")))
        info now s s' refl h
