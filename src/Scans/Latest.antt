-- ===== src/Scans/Latest.antt =====
-- The newest row of an address, after rows are added and rewritten.
use kid_pc_monitor.Base.{
  ℕ, ◌+◌, ◌<◌, ◌≡◌, refl, ap, subst, ◌∙◌, Bool, true, false, ◌&&◌, ◌||◌, Option, none, some, List,
  [], ◌∷◌, ltb, ◌==◌, if◌then◌else◌, arith, All,
}
use kid_pc_monitor.Base.Text.{Text, codes, text_eq, text_eq_iff}
use kid_pc_monitor.Scans.{
  Values, ScanRow, no_error, is_good, set_time, time_of_scan, Info, put, payload_hostname, Sighting,
  Tables, newer, latest_of, latest_scan_pc_for_ip, set_row, set_payload, inserted, updated,
}

is_good-set_time :
    (now id : ℕ) (scans : List ScanRow) (k : ℕ)
    → is_good (set_time now id scans) k ≡ is_good scans k
unfolding is_good set_time
is_good-set_time now id [] k = refl
is_good-set_time now id (s ∷ scans) k = ground (arith, is_good-set_time now id scans k)

pub time_of_scan-set_time :
    (now id : ℕ) (scans : List ScanRow)
    → is_good scans id ≡ true
    → time_of_scan (set_time now id scans) id ≡ some now
unfolding is_good set_time time_of_scan
time_of_scan-set_time now id [] h = cc
time_of_scan-set_time now id (s ∷ scans) h = ground (arith, time_of_scan-set_time now id scans)

module _ (values : Values) where
  -- Every row's id was given before.
  abbrev pub IsNumbered : Tables values → Type 0
  IsNumbered t = All (λ s. s.id < t.next_id) t.scans × All (λ r. r.scan_id < t.next_id) t.sightings

  -- A predicate on the row, where there is one.
  abbrev pub OnRow : (Sighting values → Type 0) → Option (Sighting values) → Type 0
  OnRow P none = Unit
  OnRow P (some row) = P row

  newer-OnRow :
      (P : Sighting values → Type 0) (r : Sighting values) (o : Option (Sighting values))
      → P r
      → OnRow P o
      → OnRow P (newer values r o)
  newer-OnRow P r none p q = p
  newer-OnRow P r (some other) p q =
      elim (ltb other.scan_id r.scan_id) as (λ b. OnRow P (if b then some r else some other)) [
        | true ↦ p
        | false ↦ q
      ]

  chosen-OnRow :
      (P : Sighting values → Type 0) (b : Bool) (r : Sighting values) (o : Option (Sighting values))
      → (b ≡ true → P r)
      → OnRow P o
      → OnRow P (if b then newer values r o else o)
  chosen-OnRow P true r o p q = newer-OnRow P r o (p refl) q
  chosen-OnRow P false r o p q = q

  latest_of-lt :
      (scans : List ScanRow) (ip : Text) (n : ℕ) (rows : List (Sighting values))
      → All (λ r. r.scan_id < n) rows
      → OnRow (λ r. r.scan_id < n) (latest_of values scans ip rows)
  unfolding latest_of
  latest_of-lt scans ip n [] h = tt
  latest_of-lt scans ip n (r ∷ rows) h =
      chosen-OnRow (λ r. r.scan_id < n) (text_eq r.ip ip && is_good scans r.scan_id) r _ (λ e. h.0)
        (latest_of-lt scans ip n rows h.1)

  pub latest_of-ip :
      (scans : List ScanRow) (ip : Text) (rows : List (Sighting values))
      → OnRow
          (λ r. (text_eq r.ip ip && is_good scans r.scan_id) ≡ true)
          (latest_of values scans ip rows)
  unfolding latest_of
  latest_of-ip scans ip [] = tt
  latest_of-ip scans ip (r ∷ rows) =
      chosen-OnRow (λ r. (text_eq r.ip ip && is_good scans r.scan_id) ≡ true)
        (text_eq r.ip ip && is_good scans r.scan_id) r _ (λ e. e) (latest_of-ip scans ip rows)

  -- A new scan changes nothing about the rows of older ones.
  latest_of-cons :
      (s : ScanRow) (scans : List ScanRow) (ip : Text) (rows : List (Sighting values))
      → All (λ r. r.scan_id < s.id) rows
      → latest_of values (s ∷ scans) ip rows ≡ latest_of values scans ip rows
  unfolding latest_of is_good
  latest_of-cons s scans ip [] h = refl
  latest_of-cons s scans ip (r ∷ rows) h = ground (arith, latest_of-cons s scans ip rows h.1)

  abbrev rewritten : ℕ → Text → Info values → Option (Sighting values) → Option (Sighting values)
  rewritten id ip payload none = none
  rewritten id ip payload (some row) = some (set_row values id ip payload row)

  -- The row that stands for an address, when rows of an address are rewritten.
  latest_of-set :
      (scans : List ScanRow) (now id : ℕ) (ip ip' : Text) (payload : Info values)
      (rows : List (Sighting values))
      → latest_of values (set_time now id scans) ip' (set_payload values id ip payload rows)
        ≡ rewritten id ip payload (latest_of values scans ip' rows)
  unfolding latest_of set_payload
  latest_of-set scans now id ip ip' payload [] = refl
  latest_of-set scans now id ip ip' payload (r ∷ rows) = ground (
    arith,
    latest_of-set scans now id ip ip' payload rows,
    is_good-set_time now id scans r.scan_id,
  )

  -- The row of the newest scan.
  latest_of-newest :
      (s : ScanRow) (scans : List ScanRow) (ip : Text) (row : Sighting values)
      (rows : List (Sighting values))
      → no_error s ≡ true
      → row.scan_id ≡ s.id
      → row.ip ≡ ip
      → All (λ r. r.scan_id < s.id) rows
      → latest_of values (s ∷ scans) ip (row ∷ rows) ≡ some row
  unfolding latest_of is_good
  latest_of-newest s scans ip row rows w e p h =
      newest_first (latest_of values (s ∷ scans) ip rows) (latest_of-lt (s ∷ scans) ip s.id rows h)
    where
      newest_first :
          (o : Option (Sighting values))
          → OnRow (λ r. r.scan_id < s.id) o
          → (if text_eq row.ip ip
                && ((s.id == row.scan_id && no_error s) || is_good scans row.scan_id)
              then newer values row o
              else o)
            ≡ some row
      newest_first none q = ground (arith, text_eq_iff row.ip ip)
      newest_first (some other) q = ground (arith, text_eq_iff row.ip ip)

  -- What a poll of an address writes.
  abbrev written : Text → Info values → Info values
  written ip info = put values (codes "ip") (some (values.text ip)) info

  older :
      (n : ℕ) (rows : List (Sighting values))
      → All (λ r. r.scan_id < n) rows
      → All (λ r. r.scan_id < n + 1) rows
  older n [] h = tt
  older n (r ∷ rows) h = (omega (arith, h.0), older n rows h.1)

  older_scans :
      (n : ℕ) (scans : List ScanRow) → All (λ s. s.id < n) scans → All (λ s. s.id < n + 1) scans
  older_scans n [] h = tt
  older_scans n (s ∷ scans) h = (omega (arith, h.0), older_scans n scans h.1)

  pub inserted-IsNumbered :
      (ip : Text) (payload : Info values) (now : ℕ) (t : Tables values)
      → IsNumbered t
      → IsNumbered (inserted values ip payload now t)
  inserted-IsNumbered ip payload now t h = (
    (omega arith, older_scans t.next_id t.scans h.0),
    (omega arith, older t.next_id t.sightings h.1),
  )

  pub set_time-IsNumbered :
      (n now id : ℕ) (scans : List ScanRow)
      → All (λ s. s.id < n) scans
      → All (λ s. s.id < n) (set_time now id scans)
  unfolding set_time
  set_time-IsNumbered n now id [] h = tt
  set_time-IsNumbered n now id (s ∷ scans) h =
      (ground (arith, h.0), set_time-IsNumbered n now id scans h.1)

  pub set_payload-IsNumbered :
      (n id : ℕ) (ip : Text) (payload : Info values) (rows : List (Sighting values))
      → All (λ r. r.scan_id < n) rows
      → All (λ r. r.scan_id < n) (set_payload values id ip payload rows)
  unfolding set_payload
  set_payload-IsNumbered n id ip payload [] h = tt
  set_payload-IsNumbered n id ip payload (r ∷ rows) h =
      (ground (arith, h.0), set_payload-IsNumbered n id ip payload rows h.1)

  pub inserted-newest :
      (ip : Text) (payload : Info values) (now : ℕ) (t : Tables values)
      → IsNumbered t
      → latest_scan_pc_for_ip values (inserted values ip payload now t) ip
        ≡ some (record {
          scan_id = t.next_id;
          ip = ip;
          hostname = payload_hostname values payload;
          payload = payload;
        })
  inserted-newest ip payload now t h =
      latest_of-newest (record { id = t.next_id; scanned_at = now; error = none }) t.scans ip _
        t.sightings refl refl refl h.1

  pub inserted-others :
      (ip ip' : Text) (payload : Info values) (now : ℕ) (t : Tables values)
      → IsNumbered t
      → text_eq ip ip' ≡ false
      → latest_scan_pc_for_ip values (inserted values ip payload now t) ip'
        ≡ latest_scan_pc_for_ip values t ip'
  unfolding latest_of
  inserted-others ip ip' payload now t h n = ground (
    arith,
    latest_of-cons (record { id = t.next_id; scanned_at = now; error = none }) t.scans ip'
        t.sightings h.1,
  )

  unwritten :
      (id : ℕ) (ip ip' : Text) (payload : Info values) (scans : List ScanRow)
      (o : Option (Sighting values))
      → text_eq ip ip' ≡ false
      → OnRow (λ r. (text_eq r.ip ip' && is_good scans r.scan_id) ≡ true) o
      → rewritten id ip payload o ≡ o
  unwritten id ip ip' payload scans none n h = refl
  unwritten id ip ip' payload scans (some r) n h =
      ground (arith, h, text_eq_iff r.ip ip', text_eq_iff r.ip ip, text_eq_iff ip ip')

  pub updated-latest :
      (row : Sighting values) (ip : Text) (payload : Info values) (now : ℕ) (t : Tables values)
      → latest_scan_pc_for_ip values t ip ≡ some row
      → latest_scan_pc_for_ip values (updated values row.scan_id ip payload now t) ip
        ≡ some (record row { hostname = payload_hostname values payload; payload = payload })
  updated-latest row ip payload now t e =
      let good =
        subst (OnRow (λ r. (text_eq r.ip ip && is_good t.scans r.scan_id) ≡ true)) e
          (latest_of-ip t.scans ip t.sightings) in
      latest_of-set t.scans now row.scan_id ip ip payload t.sightings
      ∙ ap (rewritten row.scan_id ip payload) e
      ∙ ground (arith, good)

  pub updated-others :
      (id : ℕ) (ip ip' : Text) (payload : Info values) (now : ℕ) (t : Tables values)
      → text_eq ip ip' ≡ false
      → latest_scan_pc_for_ip values (updated values id ip payload now t) ip'
        ≡ latest_scan_pc_for_ip values t ip'
  updated-others id ip ip' payload now t n =
      latest_of-set t.scans now id ip ip' payload t.sightings
      ∙ unwritten id ip ip' payload t.scans _ n (latest_of-ip t.scans ip' t.sightings)
