-- ===== src/Scans/Polls.antt =====
-- What a poll leaves in the table of tracked computers.
use kid_pc_monitor.Base.{
  ℕ, ◌≡◌, ◌⊎◌, inl, inr, refl, ap, subst, Bool, true, false, ◌&&◌, Option, none, some,
  if◌then◌else◌, arith,
}
use kid_pc_monitor.Base.Text.{Text, codes, text_eq, text_eq_iff}
use kid_pc_monitor.Scans.{
  Values, is_good, time_of_scan, Info, put, Sighting, Tables, latest_scan_pc_for_ip, inserted,
  updated, polled, record_poll_inspect, payload_of, get_scan_pc, get_pc_poll_updated_at,
}
use kid_pc_monitor.Scans.Latest.{
  IsNumbered, OnRow, inserted-IsNumbered, inserted-newest, inserted-others, latest_of-ip,
  set_payload-IsNumbered, set_time-IsNumbered, time_of_scan-set_time, updated-latest,
  updated-others,
}

module _ (values : Values) where
  -- What the tables `t'` say after a poll.
  abbrev Tracked : Text → Text → Info values → ℕ → Tables values → Tables values → Type 0
  Tracked ip ip' payload now t t' =
      (get_scan_pc values t' ip ≡ some payload)
      × (get_pc_poll_updated_at values t' ip ≡ some now)
      × ((ip ≡ ip') ⊎ (get_scan_pc values t' ip' ≡ get_scan_pc values t ip'))
      × IsNumbered values t'

  if-Tracked :
      (ip ip' : Text) (payload : Info values) (now : ℕ) (t x y : Tables values) (b : Bool)
      → Tracked ip ip' payload now t x
      → Tracked ip ip' payload now t y
      → Tracked ip ip' payload now t (if b then x else y)
  if-Tracked ip ip' payload now t x y true p q = p
  if-Tracked ip ip' payload now t x y false p q = q

  -- Another address, or the same.
  apart :
      (ip ip' : Text) (t t' : Tables values)
      → (text_eq ip ip' ≡ false
          → latest_scan_pc_for_ip values t' ip' ≡ latest_scan_pc_for_ip values t ip')
      → (ip ≡ ip') ⊎ (get_scan_pc values t' ip' ≡ get_scan_pc values t ip')
  unfolding get_scan_pc
  apart ip ip' t t' h = by_test (text_eq ip ip') refl
    where
      by_test :
          (b : Bool)
          → text_eq ip ip' ≡ b
          → (ip ≡ ip') ⊎ (get_scan_pc values t' ip' ≡ get_scan_pc values t ip')
      by_test true e = inl ((text_eq_iff ip ip').0 e)
      by_test false e = inr (ap (payload_of values) (h e))

  inserted-Tracked :
      (ip ip' : Text) (payload : Info values) (now : ℕ) (t : Tables values)
      → IsNumbered values t
      → Tracked ip ip' payload now t (inserted values ip payload now t)
  unfolding get_scan_pc get_pc_poll_updated_at time_of_scan
  inserted-Tracked ip ip' payload now t h = (
    ap (payload_of values) (inserted-newest values ip payload now t h),
    ground (arith, inserted-newest values ip payload now t h),
    apart ip ip' t (inserted values ip payload now t)
        (inserted-others values ip ip' payload now t h),
    inserted-IsNumbered values ip payload now t h,
  )

  updated-Tracked :
      (row : Sighting values) (ip ip' : Text) (payload : Info values) (now : ℕ) (t : Tables values)
      → IsNumbered values t
      → latest_scan_pc_for_ip values t ip ≡ some row
      → Tracked ip ip' payload now t (updated values row.scan_id ip payload now t)
  unfolding get_scan_pc get_pc_poll_updated_at
  updated-Tracked row ip ip' payload now t h e =
      let good =
        subst (OnRow values (λ r. (text_eq r.ip ip && is_good t.scans r.scan_id) ≡ true)) e
          (latest_of-ip values t.scans ip t.sightings) in
      (
        ap (payload_of values) (updated-latest values row ip payload now t e),
        ground (
          arith,
          good,
          updated-latest values row ip payload now t e,
          time_of_scan-set_time now row.scan_id t.scans,
        ),
        apart ip ip' t (updated values row.scan_id ip payload now t)
            (updated-others values row.scan_id ip ip' payload now t),
        (
          set_time-IsNumbered values t.next_id now row.scan_id t.scans h.0,
          set_payload-IsNumbered values t.next_id row.scan_id ip payload t.sightings h.1,
        ),
      )

  -- After a poll of an address is recorded in tables whose ids were all given before, the address
  -- stands for what the poll reported, at the time of the poll, every other address stands for what it
  -- stood for, and the ids were still all given before.
  pub record_poll_inspect-tracked :
      (ip ip' : Text) (info : Info values) (now : ℕ) (t : Tables values)
      → IsNumbered values t
      → let t' = record_poll_inspect values ip info now t in
        (get_scan_pc values t' ip ≡ some (put values (codes "ip") (some (values.text ip)) info))
        × (get_pc_poll_updated_at values t' ip ≡ some now)
        × ((ip ≡ ip') ⊎ (get_scan_pc values t' ip' ≡ get_scan_pc values t ip'))
        × IsNumbered values t'
  unfolding record_poll_inspect
  record_poll_inspect-tracked ip ip' info now t h =
      by_latest (latest_scan_pc_for_ip values t ip) refl
    where
      by_latest :
          (o : Option (Sighting values))
          → latest_scan_pc_for_ip values t ip ≡ o
          → Tracked ip ip'
              (put values (codes "ip") (some (values.text ip)) info)
              now
              t
              (polled values o ip (put values (codes "ip") (some (values.text ip)) info) now t)
      by_latest none e = inserted-Tracked ip ip' _ now t h
      by_latest (some row) e =
          if-Tracked ip ip' _ now t _ _ _ (updated-Tracked row ip ip' _ now t h e)
            (inserted-Tracked ip ip' _ now t h)
