-- ===== src/Dispatch/Effects.antt =====
-- What `_do_set`, `_do_clear` and `_do_extend` may do to the control object.
use kid_pc_monitor.Base.{
  ℕ, ◌≤◌, ◌≡◌, refl, ap, ◌∙◌, not, ◌&&◌, Bool, true, false, String, Option, none, some, [], arith,
  if◌then◌else◌,
}
use kid_pc_monitor.Base.Text.{Text, codes, text_eq, text_eq_iff, member}
use kid_pc_monitor.Base.Int.{ℤ, pos, negsuc, pos_part, int_leb}
use kid_pc_monitor.Clock.{Time, IsTime}
use kid_pc_monitor.Policy.{parse_time_hhmm, format_time}
use kid_pc_monitor.Policy.Hhmm.{parse_time_hhmm_accepts}
use kid_pc_monitor.Control.{
  Control, set_bed_time, clear_bed_time, set_wake_time, set_daily_allowance, extend_time,
  clear_extensions, engage_manual_lock, clear_manual_lock, save_state, lock_pc,
}
use kid_pc_monitor.Wire.{
  Value, null, bool, int, str, Nodes, Exn, Result, ok, err, bind_inv, ok_injective,
}
use kid_pc_monitor.Request.Tables.{is_writable, is_clearable}
use kid_pc_monitor.Request.{Request, parse_int}
use kid_pc_monitor.Dispatch.Operands.{
  Env, Handled, then_content, limit_minutes, parse_hhmm, parse_bool, time_of, saved, var_text,
}
use kid_pc_monitor.Dispatch.Writes.{do_set, do_clear, do_extend}

-- The action and the variable of a request.
abbrev pub Asks : Request → String → String → Type 0
Asks req action var = (req.action ≡ codes action) × (var_text req.var ≡ codes var)

-- What a request asks for: the change that each action makes to the control before it is saved, with the
-- variable and the operand that it takes it from.
pub data Change (env : Env) (c : Control) (req : Request) : Control → Type 0 where
  limit :
      (m : ℕ)
      → Asks req "set" "daily_limit"
      → limit_minutes req.val req.id ≡ ok m
      → 1 ≤ m
      → m ≤ 1440
      → Change env c req (set_daily_allowance (some m) c)
  bed :
      (t : Time)
      → Asks req "set" "bed_time"
      → parse_hhmm req.val req.id ≡ ok t
      → IsTime t
      → Change env c req (set_bed_time t c)
  wake :
      (t : Time)
      → Asks req "set" "wake_time"
      → parse_hhmm req.val req.id ≡ ok t
      → IsTime t
      → Change env c req (set_wake_time t env.now c)
  engaging :
      Asks req "set" "manual_lock"
      → parse_bool req.val req.id ≡ ok true
      → Change env c req (engage_manual_lock env.lock_done c)
  releasing :
      Asks req "set" "manual_lock"
      → parse_bool req.val req.id ≡ ok false
      → Change env c req (clear_manual_lock c)
  locking : req.action ≡ codes "lock" → Change env c req (engage_manual_lock env.lock_done c)
  unlocking : req.action ≡ codes "unlock" → Change env c req (clear_manual_lock c)
  no_limit : Asks req "clear" "daily_limit" → Change env c req (set_daily_allowance none c)
  no_bed :
      Asks req "clear" "bed_time"
      → Change env c req (record (clear_bed_time c) { warnings_sent = [] })
  no_extension : Asks req "clear" "cumulative_extension" → Change env c req (clear_extensions c)
  no_lock : Asks req "clear" "manual_lock" → Change env c req (clear_manual_lock c)
  extension :
      (m : ℕ)
      → req.action ≡ codes "extend"
      → limit_minutes req.val req.id ≡ ok m
      → 1 ≤ m
      → m ≤ 1440
      → Change env c req (extend_time m c)

-- No change touches the flag of a failed load.
Change-state_load_failed :
    {env : Env} {c d : Control} {req : Request}
    → Change env c req d
    → d.state_load_failed ≡ c.state_load_failed
unfolding set_daily_allowance set_bed_time set_wake_time engage_manual_lock clear_manual_lock
    clear_bed_time clear_extensions extend_time lock_pc
Change-state_load_failed (limit m a p l u) = refl
Change-state_load_failed (bed t a p v) = refl
Change-state_load_failed (wake t a p v) = ground arith
Change-state_load_failed (engaging a p) = ground arith
Change-state_load_failed (releasing a p) = refl
Change-state_load_failed (locking a) = ground arith
Change-state_load_failed (unlocking a) = refl
Change-state_load_failed (no_limit a) = refl
Change-state_load_failed (no_bed a) = refl
Change-state_load_failed (no_extension a) = refl
Change-state_load_failed (no_lock a) = refl
Change-state_load_failed (extension m a p l u) = refl

-- In memory, a save after a good load changes no more than the time stamp.
abbrev pub InForce : Env → Control → Control → Type 0
InForce env d c' =
    (c'.daily ≡ d.daily) × (c'.runtime ≡ record d.runtime { timestamp = env.save.save_now })

save_state-InForce :
    (env : Env) (d : Control) → d.state_load_failed ≡ false → InForce env d (save_state env.save d)
unfolding save_state
save_state-InForce env d h = ground arith

-- The request's change, and the save after it: unless the state files could not be read before, the
-- change is in force.
abbrev pub Done : Env → Control → Request → Control → Type 0
Done env c req c' =
    (d : Control) × Change env c req d
    × (c' ≡ save_state env.save d)
    × (c.state_load_failed ≡ false → InForce env d c')

-- A refusal leaves the control as it was; a success makes the change that was asked for and saves it.
unfoldable pub Settled : Env → Control → Request → Handled Nodes → Type 0
Settled env c req (c', err e) = c' ≡ c
Settled env c req (c', ok content) = Done env c req c'

limit_in_range :
    (n : ℤ) (e : Exn) {m : ℕ}
    → (if int_leb (pos 1) n && int_leb n (pos 1440) then ok (pos_part n) else err e) ≡ ok m
    → (1 ≤ m) × (m ≤ 1440)
limit_in_range (pos n) e h = ground arith
limit_in_range (negsuc n) e h = ground arith

limit_minutes-InRange :
    (v : Value) (req_id : Option Text) {m : ℕ}
    → limit_minutes v req_id ≡ ok m
    → (1 ≤ m) × (m ≤ 1440)
unfolding limit_minutes
limit_minutes-InRange v req_id h =
    let (n, p, h₁) = bind_inv (parse_int v req_id) _ h in limit_in_range n _ h₁

time_of-IsTime :
    (raw : Text) (o : Option Time) (req_id : Option Text) {t : Time}
    → parse_time_hhmm raw ≡ o
    → time_of o req_id ≡ ok t
    → IsTime t
time_of-IsTime raw none req_id p h = cc
time_of-IsTime raw (some u) req_id p h =
    (parse_time_hhmm_accepts raw (p ∙ ap some (ok_injective h))).0

parse_hhmm-IsTime :
    (v : Value) (req_id : Option Text) {t : Time} → parse_hhmm v req_id ≡ ok t → IsTime t
unfolding parse_hhmm
parse_hhmm-IsTime null req_id h = cc
parse_hhmm-IsTime (bool b) req_id h = cc
parse_hhmm-IsTime (int n) req_id h = cc
parse_hhmm-IsTime (str s) req_id h = time_of-IsTime s (parse_time_hhmm s) req_id refl h

writable_others :
    (var : Text)
    → is_writable var ≡ true
    → text_eq var (codes "daily_limit") ≡ false
    → text_eq var (codes "bed_time") ≡ false
    → text_eq var (codes "wake_time") ≡ false
    → var ≡ codes "manual_lock"
unfolding is_writable member
writable_others var h d b w = (text_eq_iff var (codes "manual_lock")).0 (ground (arith, h, d, b, w))

clearable_others :
    (var : Text)
    → is_clearable var ≡ true
    → text_eq var (codes "daily_limit") ≡ false
    → text_eq var (codes "bed_time") ≡ false
    → text_eq var (codes "cumulative_extension") ≡ false
    → var ≡ codes "manual_lock"
unfolding is_clearable member
clearable_others var h d b w =
    (text_eq_iff var (codes "manual_lock")).0 (ground (arith, h, d, b, w))

module _ (env : Env) (c : Control) (req : Request) where
  pub saved-Settled :
      (d : Control) (v : Value) → Change env c req d → Settled env c req (saved env v d)
  unfolding Settled
  saved-Settled d v p =
      (d, p, refl, (λ h. save_state-InForce env d (Change-state_load_failed p ∙ h)))

  refused-Settled : (e : Exn) → Settled env c req (c, err e)
  unfolding Settled
  refused-Settled e = refl

  then-Settled :
      {A : Type 0} (m : Result A) (k : A → Handled Nodes)
      → ((a : A) → m ≡ ok a → Settled env c req (k a))
      → Settled env c req (then_content m c k)
  unfolding Settled
  then-Settled (ok a) k f = f a refl
  then-Settled (err e) k f = refl

  if-Settled :
      (b : Bool) (x y : Handled Nodes)
      → (b ≡ true → Settled env c req x)
      → (b ≡ false → Settled env c req y)
      → Settled env c req (if b then x else y)
  if-Settled true x y p q = p refl
  if-Settled false x y p q = q refl

  if-Change :
      {x y : Control} (b : Bool)
      → (b ≡ true → Change env c req x)
      → (b ≡ false → Change env c req y)
      → Change env c req (if b then x else y)
  if-Change true p q = p refl
  if-Change false p q = q refl

  named : (t : Text) → text_eq (var_text req.var) t ≡ true → var_text req.var ≡ t
  named t h = (text_eq_iff (var_text req.var) t).0 h

  -- A `set` request that is refused leaves the control as it was; one that succeeds makes the change
  -- that it asks for, with a limit from 1 to 1440 minutes or a valid time of day, and saves it.
  pub do_set-Settled : req.action ≡ codes "set" → Settled env c req (do_set env c req)
  unfolding do_set
  do_set-Settled a =
      let var = var_text req.var in
      if-Settled (not (is_writable var)) _ _ (λ h. refused-Settled _)
        (λ w.
          if-Settled (text_eq var (codes "daily_limit")) _ _
            (λ h.
              then-Settled (limit_minutes req.val req.id)
                (λ m. saved env (int (pos m)) (set_daily_allowance (some m) c))
                (λ m p.
                  let r = limit_minutes-InRange req.val req.id p in
                  saved-Settled _ _ (limit m (a, named _ h) p r.0 r.1)))
            (λ d.
              if-Settled (text_eq var (codes "bed_time")) _ _
                (λ h.
                  then-Settled (parse_hhmm req.val req.id)
                    (λ t. saved env (str (format_time t)) (set_bed_time t c))
                    (λ t p.
                      saved-Settled _ _
                        (bed t (a, named _ h) p (parse_hhmm-IsTime req.val req.id p))))
                (λ b.
                  if-Settled (text_eq var (codes "wake_time")) _ _
                    (λ h.
                      then-Settled (parse_hhmm req.val req.id)
                        (λ t. saved env (str (format_time t)) (set_wake_time t env.now c))
                        (λ t p.
                          saved-Settled _ _
                            (wake t (a, named _ h) p (parse_hhmm-IsTime req.val req.id p))))
                    (λ k.
                      let lock = writable_others var (ground (arith, w)) d b k in
                      then-Settled (parse_bool req.val req.id) _ (λ e p. saved-Settled _ _ (
                        if-Change e (λ t. engaging (a, lock) (p ∙ ap ok t))
                          (λ t. releasing (a, lock) (p ∙ ap ok t))))))))

  -- A `clear` request that is refused leaves the control as it was; one that succeeds makes the
  -- change that it asks for and saves it.
  pub do_clear-Settled : req.action ≡ codes "clear" → Settled env c req (do_clear env c req)
  unfolding do_clear
  do_clear-Settled a =
      let var = var_text req.var in
      if-Settled (not (is_clearable var)) _ _ (λ h. refused-Settled _)
        (λ w. saved-Settled _ _ (
          if-Change (text_eq var (codes "daily_limit")) (λ h. no_limit (a, named _ h))
            (λ d.
              if-Change (text_eq var (codes "bed_time")) (λ h. no_bed (a, named _ h))
                (λ b.
                  if-Change (text_eq var (codes "cumulative_extension"))
                    (λ h. no_extension (a, named _ h))
                    (λ k. no_lock (a, clearable_others var (ground (arith, w)) d b k))))))

  -- An `extend` request that is refused leaves the control as it was; one that succeeds adds from 1
  -- to 1440 minutes, as it asks, and saves that.
  pub do_extend-Settled : req.action ≡ codes "extend" → Settled env c req (do_extend env c req)
  unfolding do_extend
  do_extend-Settled a = then-Settled (limit_minutes req.val req.id) _ (λ m p.
      let r = limit_minutes-InRange req.val req.id p in saved-Settled _ _ (extension m a p r.0 r.1))
