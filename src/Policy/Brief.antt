-- ===== src/Policy/Brief.antt =====
-- The brief reasons that the parent panel can be shown.
use kid_pc_monitor.Base.{
  ℕ, ◌≡◌, ◌⊎◌, inl, inr, refl, Bool, true, false, not, Option, none, some, [], ◌∷◌, ◌++◌, map,
  arith, ◌==◌, if◌then◌else◌, all,
}
use kid_pc_monitor.Base.Text.{Text, codes}
use kid_pc_monitor.Clock.{Time, IsTime, clock_before}
use kid_pc_monitor.Policy.{
  Facts, lock_decision, bed_label, cap_or_zero, in_curfew, allowance_reached, format_time,
}
use kid_pc_monitor.Policy.Remaining.{IsFacts}
use kid_pc_monitor.Policy.Status.{lower, contains, brief_enforcement_reason, enforcement_state}

brief_before_wake :
    (t : Text)
    → brief_enforcement_reason (codes "Before wake-up time " ++ t) ≡ codes "before wake-up"
unfolding brief_enforcement_reason
brief_before_wake t = refl

brief_past_bedtime :
    (t : Time)
    → IsTime t
    → brief_enforcement_reason (codes "Past bedtime " ++ format_time t) ≡ codes "past bedtime"
unfolding brief_enforcement_reason format_time
brief_past_bedtime t v = ground arith

-- No printed allowance has the first letter of the other reasons.
abbrev lacks : ℕ → Text → Bool
lacks h s = all (λ c. not (lower c == h)) s

abbrev pub IsLabel : Text → Type 0
IsLabel s = (lacks b'b' s ≡ true) × (lacks b'p' s ≡ true)

contains_no_head :
    (h : ℕ) (needle s : Text)
    → all (λ c. not (lower c == h)) s ≡ true
    → contains (h ∷ needle) (map lower s) ≡ false
unfolding contains
contains_no_head h needle [] e = refl
contains_no_head h needle (c ∷ s) e = ground (arith, contains_no_head h needle s)

lacks-append : (h : ℕ) (s t : Text) → lacks h s ≡ true → lacks h t ≡ true → lacks h (s ++ t) ≡ true
lacks-append h [] t p q = q
lacks-append h (c ∷ s) t p q = ground (arith, lacks-append h s t)

abbrev daily_text : Text → Text
daily_text label = codes "Daily allowance of " ++ (label ++ codes " minutes reached")

lacks-daily_text :
    (h : ℕ) (label : Text)
    → lacks h (codes "Daily allowance of ") ≡ true
    → lacks h (codes " minutes reached") ≡ true
    → lacks h label ≡ true
    → lacks h (daily_text label) ≡ true
lacks-daily_text h label p q r =
    lacks-append h (codes "Daily allowance of ") (label ++ codes " minutes reached") p
      (lacks-append h label (codes " minutes reached") r q)

brief_third :
    (t : Text)
    → contains (codes "before wake-up") (map lower t) ≡ false
    → contains (codes "past bedtime") (map lower t) ≡ false
    → contains (codes "daily allowance") (map lower t) ≡ true
    → brief_enforcement_reason t ≡ codes "daily limit reached"
unfolding brief_enforcement_reason
brief_third t p q r = rw (p, q, r)

brief_daily :
    (label : Text)
    → IsLabel label
    → brief_enforcement_reason (daily_text label) ≡ codes "daily limit reached"
brief_daily label v =
    let no_b =
      contains_no_head b'b' (codes "efore wake-up") (daily_text label)
        (lacks-daily_text b'b' label (unfold lower in refl) (unfold lower in refl) v.0) in
    let no_p =
      contains_no_head b'p' (codes "ast bedtime") (daily_text label)
        (lacks-daily_text b'p' label (unfold lower in refl) (unfold lower in refl) v.1) in
    brief_third (daily_text label) no_b no_p (unfold contains lower in refl)

-- The two facts above at the optional bed time and allowance.
brief_bed :
    (bed : Option Time)
    → ((t : Time) → bed ≡ some t → IsTime t)
    → (bed ≡ none)
      ⊎ (brief_enforcement_reason (codes "Past bedtime " ++ bed_label bed) ≡ codes "past bedtime")
brief_bed none v = inl refl
brief_bed (some t) v = inr (brief_past_bedtime t (v t refl))

brief_cap :
    (label : ℕ → Text) (allowed : Option ℕ)
    → ((c : ℕ) → IsLabel (label c))
    → brief_enforcement_reason (daily_text (label (cap_or_zero allowed)))
      ≡ codes "daily limit reached"
brief_cap label allowed w = brief_daily (label (cap_or_zero allowed)) (w (cap_or_zero allowed))

-- For a valid bed time, and a label without the letters b and p (a printed number has none), the
-- panel is told of no enforcement for a user who is not monitored; else the curfew, named by the
-- half of the night it is in, before the allowance; a manual lock plays no part.
pub enforcement_state_reasons :
    (allowance_label : ℕ → Text) (f : Facts)
    → IsFacts f
    → ((c : ℕ) → IsLabel (allowance_label c))
    → enforcement_state allowance_label f ≡ (
        if not f.monitor_user
        then (false, none)
        else if in_curfew f.now f.bed_time f.wake_time
        then (
          true,
          some (
              if clock_before f.now f.wake_time
              then codes "before wake-up"
              else codes "past bedtime"),
        )
        else if allowance_reached f.effective f.used
        then (true, some (codes "daily limit reached"))
        else (false, none))
unfolding enforcement_state lock_decision
enforcement_state_reasons label f v w = ground (
  arith,
  brief_before_wake (format_time f.wake_time),
  brief_bed f.bed_time v.bed_valid,
  brief_cap label f.effective w,
)
