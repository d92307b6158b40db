-- ===== src/Scans/Pruning.antt =====
-- What pruning leaves in the table of tracked computers.
use kid_pc_monitor.Base.{
  ℕ, ◌≡◌, ◌⊎◌, inl, inr, refl, sym, subst, ap, ◌∙◌, Bool, true, false, ◌&&◌, Option, none, some,
  List, [], ◌∷◌, if◌then◌else◌, All, arith,
}
use kid_pc_monitor.Base.Text.{Text, text_eq, text_eq_iff, member}
use kid_pc_monitor.Scans.{
  Values, Info, ScanRow, is_good, Sighting, Tables, latest_of, latest_scan_pc_for_ip, payload_of,
  get_scan_pc,
}
use kid_pc_monitor.Scans.Stale.{
  Snapshot, is_stale, known_ips, stale_of, delete_rows, has_row, prune_orphan_scans, without,
  pruned, prune_stale_tracked_ips, mark_latest_not_connected, store_payload, set_disconnected,
  disconnected, mark_row,
}
use kid_pc_monitor.Scans.Latest.{OnRow, latest_of-ip}

module _ (values : Values) where
  unknown-latest :
      (scans : List ScanRow) (ip : Text) (rows : List (Sighting values))
      → member ip (known_ips values scans rows) ≡ false
      → latest_of values scans ip rows ≡ none
  unfolding known_ips latest_of member
  unknown-latest scans ip [] h = refl
  unknown-latest scans ip (r ∷ rows) h =
      ground (arith, unknown-latest scans ip rows, text_eq_iff r.ip ip, text_eq_iff ip r.ip)

  member-stale_of :
      (stale : Text → Bool) (ip : Text) (ips : List Text)
      → member ip (stale_of values stale ips) ≡ (member ip ips && stale ip)
  unfolding stale_of member
  member-stale_of stale ip [] = refl
  member-stale_of stale ip (p ∷ ips) =
      ground (arith, member-stale_of stale ip ips, text_eq_iff ip p, ap stale {x = ip} {y = p})

  -- Only the rows of the deleted addresses go.
  latest_of-delete_rows :
      (scans : List ScanRow) (ip : Text) (stale : List Text) (rows : List (Sighting values))
      → latest_of values scans ip (delete_rows values stale rows)
        ≡ (if member ip stale then none else latest_of values scans ip rows)
  unfolding latest_of delete_rows
  latest_of-delete_rows scans ip stale [] = ground arith
  latest_of-delete_rows scans ip stale (r ∷ rows) =
      ground (arith, latest_of-delete_rows scans ip stale rows, text_eq_iff r.ip ip)

  is_good-prune_orphan_scans :
      (rows : List (Sighting values)) (scans : List ScanRow) (id : ℕ)
      → is_good (prune_orphan_scans values rows scans) id
        ≡ (is_good scans id && has_row values id rows)
  unfolding is_good prune_orphan_scans
  is_good-prune_orphan_scans rows [] id = refl
  is_good-prune_orphan_scans rows (s ∷ scans) id =
      ground (arith, is_good-prune_orphan_scans rows scans id)

  latest_of-prune_orphan_scans :
      (all : List (Sighting values)) (scans : List ScanRow) (ip : Text)
      (rows : List (Sighting values))
      → All (λ r. has_row values r.scan_id all ≡ true) rows
      → latest_of values (prune_orphan_scans values all scans) ip rows
        ≡ latest_of values scans ip rows
  unfolding latest_of
  latest_of-prune_orphan_scans all scans ip [] h = refl
  latest_of-prune_orphan_scans all scans ip (r ∷ rows) h = ground (
    arith,
    latest_of-prune_orphan_scans all scans ip rows h.1,
    is_good-prune_orphan_scans all scans r.scan_id,
    h.0,
  )

  occur-more :
      (r : Sighting values) (all rows : List (Sighting values))
      → All (λ q. has_row values q.scan_id all ≡ true) rows
      → All (λ q. has_row values q.scan_id (r ∷ all) ≡ true) rows
  unfolding has_row
  occur-more r all [] h = tt
  occur-more r all (q ∷ rows) h = (ground (arith, h.0), occur-more r all rows h.1)

  occur : (rows : List (Sighting values)) → All (λ q. has_row values q.scan_id rows ≡ true) rows
  unfolding has_row
  occur [] = tt
  occur (r ∷ rows) = (ground arith, occur-more r rows rows (occur rows))

  -- The address after the deletion of the stale ones among the known.
  get_scan_pc-without :
      (stale : Text → Bool) (ip : Text) (t : Tables values)
      → get_scan_pc values
          (without values (stale_of values stale (known_ips values t.scans t.sightings)) t)
          ip
        ≡ (if stale ip then none else get_scan_pc values t ip)
  unfolding get_scan_pc
  get_scan_pc-without stale ip t =
      let gone = stale_of values stale (known_ips values t.scans t.sightings) in
      ap (payload_of values) (
        latest_of-prune_orphan_scans (delete_rows values gone t.sightings) t.scans ip
          (delete_rows values gone t.sightings) (occur (delete_rows values gone t.sightings))
        ∙ latest_of-delete_rows t.scans ip gone t.sightings)
      ∙ ground (
        arith,
        member-stale_of stale ip (known_ips values t.scans t.sightings),
        unknown-latest t.scans ip t.sightings,
      )

  abbrev stored : ℕ → Text → Info values → Option (Sighting values) → Option (Sighting values)
  stored id ip payload none = none
  stored id ip payload (some row) = some (set_disconnected values id ip payload row)

  latest_of-store_payload :
      (scans : List ScanRow) (id : ℕ) (ip ip' : Text) (payload : Info values)
      (rows : List (Sighting values))
      → latest_of values scans ip' (store_payload values id ip payload rows)
        ≡ stored id ip payload (latest_of values scans ip' rows)
  unfolding latest_of store_payload
  latest_of-store_payload scans id ip ip' payload [] = refl
  latest_of-store_payload scans id ip ip' payload (r ∷ rows) =
      ground (arith, latest_of-store_payload scans id ip ip' payload rows)

  -- An address after the known one `k` is marked: as before, or not connected any more.
  abbrev Marked : Text → Text → Tables values → Tables values → Type 0
  Marked k ip t t' =
      (get_scan_pc values t' ip ≡ get_scan_pc values t ip)
      ⊎ ((info : Info values) × (ip ≡ k)
          × (get_scan_pc values t ip ≡ some info)
          × (get_scan_pc values t' ip ≡ some (disconnected values info)))

  elsewhere-stored :
      (id : ℕ) (k ip : Text) (info : Info values) (scans : List ScanRow)
      (o : Option (Sighting values))
      → text_eq k ip ≡ false
      → OnRow values (λ r. (text_eq r.ip ip && is_good scans r.scan_id) ≡ true) o
      → stored id k info o ≡ o
  elsewhere-stored id k ip info scans none n h = refl
  elsewhere-stored id k ip info scans (some r) n h =
      ground (arith, h, text_eq_iff r.ip ip, text_eq_iff r.ip k, text_eq_iff k ip)

  abbrev marked : Text → Sighting values → Tables values → Tables values
  marked k row t = record t {
    sightings = store_payload values row.scan_id k (disconnected values row.payload) t.sightings;
  }

  store-Marked :
      (k ip : Text) (row : Sighting values) (t : Tables values)
      → latest_scan_pc_for_ip values t k ≡ some row
      → Marked k ip t (marked k row t)
  unfolding get_scan_pc
  store-Marked k ip row t e = by_test (text_eq k ip) refl
    where
      by_test : (b : Bool) → text_eq k ip ≡ b → Marked k ip t (marked k row t)
      by_test true p =
          let same = (text_eq_iff k ip).0 p in
          let e' = ap (latest_scan_pc_for_ip values t) (sym same) ∙ e in
          let good =
            subst (OnRow values (λ r. (text_eq r.ip k && is_good t.scans r.scan_id) ≡ true)) e
              (latest_of-ip values t.scans k t.sightings) in
          inr (
            row.payload,
            sym same,
            ap (payload_of values) e',
            ap (payload_of values) (
                  latest_of-store_payload t.scans row.scan_id k ip _ t.sightings
                  ∙ ap (stored row.scan_id k (disconnected values row.payload)) e')
                ∙ ground (arith, good),
          )
      by_test false p = inl (
          ap (payload_of values) (
            latest_of-store_payload t.scans row.scan_id k ip _ t.sightings
            ∙ elsewhere-stored row.scan_id k ip _ t.scans _ p
                (latest_of-ip values t.scans ip t.sightings)))

  mark-Marked :
      (k ip : Text) (t : Tables values) → Marked k ip t (mark_latest_not_connected values k t)
  unfolding mark_latest_not_connected
  mark-Marked k ip t = by_latest (latest_scan_pc_for_ip values t k) refl
    where
      unless :
          (b : Bool) (t' : Tables values) → Marked k ip t t' → Marked k ip t (if b then t else t')
      unless true t' m = inl refl
      unless false t' m = m

      by_latest :
          (o : Option (Sighting values))
          → latest_scan_pc_for_ip values t k ≡ o
          → Marked k ip t (mark_row values o k t)
      by_latest none e = inl refl
      by_latest (some row) e = unless _ (marked k row t) (store-Marked k ip row t e)

  -- The outcome of a prune, for one address.
  abbrev pub Outcome :
      (Text → Bool) → Text → List Text → Tables values → Tables values × List Text → Type 0
  Outcome stale ip known t (t', removed) =
      ((k : Text) × (known ≡ k ∷ []) × (stale k ≡ true) × (removed ≡ []) × Marked k ip t t')
      ⊎ (((k : Text) → known ≡ k ∷ [] → stale k ≡ false)
          × (get_scan_pc values t' ip ≡ (if stale ip then none else get_scan_pc values t ip))
          × (member ip removed ≡ (member ip known && stale ip)))

  removed-Outcome :
      (stale : Text → Bool) (ip : Text) (t : Tables values) (known gone : List Text)
      → known_ips values t.scans t.sightings ≡ known
      → gone ≡ stale_of values stale known
      → ((k : Text) → known ≡ k ∷ [] → stale k ≡ false)
      → Outcome stale ip known t (without values gone t, gone)
  removed-Outcome stale ip t known gone e g several = inr (
    several,
    ap (λ l. get_scan_pc values (without values l t) ip) (g ∙ ap (stale_of values stale) (sym e))
        ∙ get_scan_pc-without stale ip t,
    ap (member ip) g ∙ member-stale_of stale ip known,
  )

  one-stale :
      (stale : Text → Bool) (k x : Text) (more : List Text)
      → x ∷ more ≡ stale_of values stale (k ∷ [])
      → stale k ≡ true
  unfolding stale_of
  one-stale stale k x more h = ground arith

  one-current :
      (stale : Text → Bool) (k : Text) → [] ≡ stale_of values stale (k ∷ []) → stale k ≡ false
  unfolding stale_of
  one-current stale k h = ground arith

  pruned-Outcome :
      (stale : Text → Bool) (ip : Text) (t : Tables values) (known gone : List Text)
      → known_ips values t.scans t.sightings ≡ known
      → gone ≡ stale_of values stale known
      → Outcome stale ip known t (pruned values known gone t)
  pruned-Outcome stale ip t [] gone e g = removed-Outcome stale ip t [] gone e g (λ k h. cc)
  pruned-Outcome stale ip t (k ∷ []) [] e g =
      removed-Outcome stale ip t (k ∷ []) [] e g (λ j h. ground (arith, one-current stale k g))
  pruned-Outcome stale ip t (k ∷ []) (x ∷ more) e g =
      inl (k, refl, one-stale stale k x more g, refl, mark-Marked k ip t)
  pruned-Outcome stale ip t (k ∷ l ∷ known) gone e g =
      removed-Outcome stale ip t (k ∷ l ∷ known) gone e g (λ j h. cc)

  -- Pruning does one of two things. Where a single address is known, and was not reached since the
  -- cutoff, nothing is removed: every address stands for what it stood for, but that the known one
  -- may be marked as not reachable, without an error of its connection. In every other case an address that was not reached since the cutoff stands for
  -- nothing, every other one stands for what it stood for, and what is returned are the known
  -- addresses of the first kind.
  pub prune_stale_tracked_ips-Outcome :
      (snapshots : List (Snapshot values)) (cutoff : ℕ) (ip : Text) (t : Tables values)
      → Outcome
          (is_stale values snapshots cutoff t)
          ip
          (known_ips values t.scans t.sightings)
          t
          (prune_stale_tracked_ips values snapshots cutoff t)
  unfolding prune_stale_tracked_ips
  prune_stale_tracked_ips-Outcome snapshots cutoff ip t =
      pruned-Outcome (is_stale values snapshots cutoff t) ip t
        (known_ips values t.scans t.sightings) _ refl refl
