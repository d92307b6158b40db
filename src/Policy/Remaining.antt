-- ===== src/Policy/Remaining.antt =====
-- `minutes_until_lock` foretells the lock.
use kid_pc_monitor.Base.{
  ℕ, ◌+◌, ◌-◌, ◌*◌, ◌≤◌, ◌<◌, ◌≡◌, ◌≢◌, ◌↔◌, refl, inl, inr, Bool-cases, Bool, true, false, ◌&&◌,
  ◌||◌, suc, Option, none, some, arith,
}
use kid_pc_monitor.Base.Text.{Text}
use kid_pc_monitor.Clock.{Time, DateTime, IsTime, IsDateTime, instant, day_micros}
use kid_pc_monitor.Policy.{
  Facts, lock_decision, minutes_until_lock, is_in_bedtime_curfew, in_curfew, bed_datetime,
  until_bed, until_used_up, least, allowance_reached,
}

-- The times in the inputs are ones that Python's constructors accept.
pub record IsFacts (f : Facts) : Type 0 where
  pub now_valid : IsDateTime f.now
  pub wake_valid : IsTime f.wake_time
  pub bed_valid : (bed : Time) → f.bed_time ≡ some bed → IsTime bed

module _ {now : DateTime} {bed : Time} (n : IsDateTime now) (b : IsTime bed) where
  -- The next bed time is strictly ahead, by a day at most.
  pub bed_datetime_bounds :
      (instant now < bed_datetime now bed) × (bed_datetime now bed ≤ instant now + day_micros)
  unfolding bed_datetime
  bed_datetime_bounds = ground arith

module _ {now later : DateTime} {bed wake : Time} (n : IsDateTime now) (l : IsDateTime later)
    (b : IsTime bed) (w : IsTime wake) where
  -- Outside the curfew it stays away until the next bed time.
  no_curfew_before_bed :
      is_in_bedtime_curfew now bed wake ≡ false
      → instant now ≤ instant later
      → instant later < bed_datetime now bed
      → is_in_bedtime_curfew later bed wake ≡ false
  unfolding is_in_bedtime_curfew bed_datetime
  no_curfew_before_bed h u v = ground arith

  -- The curfew begins at the next bed time, unless it is the wake-up time.
  curfew_at_bed :
      bed.hour * 60 + bed.minute ≢ wake.hour * 60 + wake.minute
      → instant later ≡ bed_datetime now bed
      → is_in_bedtime_curfew later bed wake ≡ true
  unfolding is_in_bedtime_curfew bed_datetime
  curfew_at_bed h e = ground arith

-- The wait for the next bed time, and for the end of the allowance, is never zero.
least_pos : (m o : Option ℕ) → (o ≢ some 0) → m ≢ some 0 → least m o ≢ some 0
least_pos m none h k = k
least_pos none (some r) h k = h
least_pos (some m) (some r) h k = ground arith

until_bed_pos :
    {now : DateTime} (bed : Option Time)
    → IsDateTime now
    → ((t : Time) → bed ≡ some t → IsTime t)
    → until_bed now bed ≢ some 0
until_bed_pos none n b e = cc
until_bed_pos {now} (some t) n b e =
    ground (arith, bed_datetime_bounds {now = now} {bed = t} n (b t refl))

until_used_up_pos :
    (cap : Option ℕ) (used : ℕ)
    → allowance_reached cap used ≡ false
    → until_used_up cap used ≢ some 0
until_used_up_pos none used h e = cc
until_used_up_pos (some cap) used h e = ground arith

module _ (allowance_label : ℕ → Text) (f : Facts) (v : IsFacts f) (m : f.monitor_user ≡ true) where
  below_allowance :
      (lock_decision allowance_label f).should_lock ≡ false
      → allowance_reached f.effective f.used ≡ false
  unfolding lock_decision
  below_allowance h = ground arith

  -- For a monitored user at valid times, the answer is zero exactly while the agent locks.
  pub minutes_until_lock-zero_iff :
      (minutes_until_lock allowance_label f ≡ some 0)
      ↔ ((lock_decision allowance_label f).should_lock ≡ true)
  unfolding minutes_until_lock
  minutes_until_lock-zero_iff = elim (Bool-cases (lock_decision allowance_label f).should_lock) [
    | inl locked ↦ ((λ _. locked), (λ _. rw (locked, m)))
    | inr free ↦ (
      (λ e. absurd (
          least_pos (until_bed f.now f.bed_time) (until_used_up f.effective f.used)
            (until_used_up_pos f.effective f.used (below_allowance free))
            (until_bed_pos f.bed_time v.now_valid v.bed_valid) (rw (free, m) at e))),
      (λ e. cc (e, free)),
    )
  ]

pub Bool-and_false : (b : Bool) → (b && false) ≡ false
Bool-and_false true = refl
Bool-and_false false = refl

-- A lock is manual, a curfew or a reached allowance.
pub should_lock-eq_or :
    (allowance_label : ℕ → Text) (f : Facts)
    → (lock_decision allowance_label f).should_lock ≡ (
        f.monitor_user
        && (f.manual_lock
            || (in_curfew f.now f.bed_time f.wake_time || allowance_reached f.effective f.used)))
unfolding lock_decision
should_lock-eq_or label f = ground arith

waits_unlocked :
    (allowance_label : ℕ → Text) (f : Facts) (r : ℕ)
    → minutes_until_lock allowance_label f ≡ some (suc r)
    → (f.monitor_user ≡ true)
      × (f.manual_lock ≡ false)
      × (in_curfew f.now f.bed_time f.wake_time ≡ false)
      × (allowance_reached f.effective f.used ≡ false)
      × (least (until_bed f.now f.bed_time) (until_used_up f.effective f.used) ≡ some (suc r))
unfolding minutes_until_lock
waits_unlocked label f r e = ground (arith, should_lock-eq_or label f)

module _ {now later : DateTime} {wake : Time} (n : IsDateTime now) (l : IsDateTime later)
    (w : IsTime wake) (r : ℕ) where
  curfew_waits :
      (bed : Option Time) (o : Option ℕ)
      → ((t : Time) → bed ≡ some t → IsTime t)
      → least (until_bed now bed) o ≡ some r
      → in_curfew now bed wake ≡ false
      → instant now ≤ instant later
      → instant later < instant now + r
      → in_curfew later bed wake ≡ false
  curfew_waits none o b e c u v = refl
  curfew_waits (some t) none b e c u v = no_curfew_before_bed n l (b t refl) w c u (ground arith)
  curfew_waits (some t) (some x) b e c u v =
      no_curfew_before_bed n l (b t refl) w c u (ground arith)

allowance_waits :
    (m allowed : Option ℕ) (used used' r d : ℕ)
    → least m (until_used_up allowed used) ≡ some r
    → allowance_reached allowed used ≡ false
    → d < r
    → used' ≤ used + d
    → allowance_reached allowed used' ≡ false
allowance_waits m none used used' r d e a u v = refl
allowance_waits none (some c) used used' r d e a u v = ground arith
allowance_waits (some m) (some c) used used' r d e a u v = ground arith

-- The lock comes when it was foretold: by the curfew, or by the allowance.
module _ {now later : DateTime} {wake : Time} (n : IsDateTime now) (l : IsDateTime later)
    (w : IsTime wake) where
  curfew_comes :
      (t : Time) (r : ℕ)
      → IsTime t
      → t.hour * 60 + t.minute ≢ wake.hour * 60 + wake.minute
      → bed_datetime now t - instant now ≡ r
      → instant later ≡ instant now + r
      → is_in_bedtime_curfew later t wake ≡ true
  curfew_comes t r b d e u =
      curfew_at_bed n l b w d (omega (arith, (bed_datetime_bounds {bed = t} n b).0))

  lock_comes :
      (bed : Option Time) (allowed : Option ℕ) (used r : ℕ)
      → ((t : Time) → bed ≡ some t → IsTime t)
      → ((t : Time) → bed ≡ some t → t.hour * 60 + t.minute ≢ wake.hour * 60 + wake.minute)
      → least (until_bed now bed) (until_used_up allowed used) ≡ some r
      → instant later ≡ instant now + r
      → (in_curfew later bed wake || allowance_reached allowed (used + r)) ≡ true
  lock_comes none none used r b d e u = cc
  lock_comes none (some c) used r b d e u = ground arith
  lock_comes (some t) none used r b d e u = ground (arith, curfew_comes t r (b t refl) (d t refl))
  lock_comes (some t) (some c) used r b d e u =
      ground (arith, curfew_comes t r (b t refl) (d t refl))

module _ (allowance_label : ℕ → Text) (f : Facts) (later : DateTime) (used' r : ℕ) (v : IsFacts f)
    (l : IsDateTime later) (foretold : minutes_until_lock allowance_label f ≡ some (suc r)) where
  -- Until the foretold moment there is no lock, as long as usage grows no faster than the clock.
  pub minutes_until_lock_sound :
      instant f.now ≤ instant later
      → instant later < instant f.now + suc r
      → used' + instant f.now ≤ f.used + instant later
      → (lock_decision allowance_label (record f { now = later; used = used' })).should_lock ≡ false
  minutes_until_lock_sound u t g =
      let p = waits_unlocked allowance_label f r foretold in
      cc (
        should_lock-eq_or allowance_label (record f { now = later; used = used' }),
        p.1,
        curfew_waits v.now_valid l v.wake_valid (suc r) f.bed_time
            (until_used_up f.effective f.used) v.bed_valid p.4 p.2 u t,
        allowance_waits (until_bed f.now f.bed_time) f.effective f.used used' (suc r)
            (instant later - instant f.now) p.4 p.3 (omega arith) (omega arith),
        Bool-and_false f.monitor_user,
      )

  -- At the foretold moment, after use without a pause, the agent locks, if bed and wake times differ.
  pub minutes_until_lock_complete :
      instant later ≡ instant f.now + suc r
      → ((t : Time)
          → f.bed_time ≡ some t
          → t.hour * 60 + t.minute ≢ f.wake_time.hour * 60 + f.wake_time.minute)
      → (lock_decision allowance_label
          (record f { now = later; used = f.used + suc r })).should_lock
        ≡ true
  minutes_until_lock_complete u d =
      let p = waits_unlocked allowance_label f r foretold in
      cc (
        should_lock-eq_or allowance_label (record f { now = later; used = f.used + suc r }),
        p.0,
        p.1,
        lock_comes v.now_valid l v.wake_valid f.bed_time f.effective f.used (suc r) v.bed_valid d
            p.4 u,
      )
