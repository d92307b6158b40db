-- ===== src/Dispatch/Settled.antt =====
-- What a dispatched request may do to the settings, the usage and the state files.
use kid_pc_monitor.Base.{
  ℕ, ◌≡◌, ◌⊎◌, inl, inr, refl, ◌∙◌, sym, ap, subst, Bool, true, false, List, [], ◌∷◌, if◌then◌else◌,
  arith,
}
use kid_pc_monitor.Base.Text.{Text, codes, text_eq, text_eq_iff, member}
use kid_pc_monitor.Control.{
  Control, Answer, answers, raises, check_if_locked, note_failure, note_recovered, show,
  get_access_status, send_parent_message, shutdown_pc, engage_manual_lock, clear_manual_lock,
}
use kid_pc_monitor.Wire.{Value, str, node, Nodes, nil, cons, Exn, Result, ok, err, ◌>>=◌}
use kid_pc_monitor.Request.{Request}
use kid_pc_monitor.Request.Tables.{variables}
use kid_pc_monitor.Dispatch.{dispatch}
use kid_pc_monitor.Dispatch.Operands.{Env, Handled, capabilities_content, var_text}
use kid_pc_monitor.Dispatch.Writes.{
  do_set, do_clear, do_extend, do_message, send_message, do_shutdown,
}
use kid_pc_monitor.Dispatch.Reads.{do_get_logs, do_get, read_variable, read_all}
use kid_pc_monitor.Dispatch.Effects.{
  Done, locking, unlocking, Settled, saved-Settled, do_set-Settled, do_clear-Settled,
  do_extend-Settled,
}

-- The actions that change settings or usage.
abbrev pub is_stateful : Text → Bool
is_stateful a =
    member a (codes "set" ∷ codes "clear" ∷ codes "extend" ∷ codes "lock" ∷ codes "unlock" ∷ [])

-- Settings, usage and files are as they were.
abbrev pub SameState : Control → Control → Type 0
SameState c c' =
    (c'.daily ≡ c.daily)
    × (c'.runtime ≡ c.runtime)
    × (c'.disk_daily ≡ c.disk_daily)
    × (c'.disk_runtime ≡ c.disk_runtime)
    × (c'.state_load_failed ≡ c.state_load_failed)

-- Nothing of the state changed, and the action is one that changes none or was refused; or it
-- succeeded, with the change that was asked for, saved.
abbrev pub Ends : Env → Control → Request → Handled Nodes → Type 0
Ends env c req (c', r) =
    (SameState c c' × ((is_stateful req.action ≡ false) ⊎ ((e : Exn) × (r ≡ err e))))
    ⊎ ((content : Nodes) × (r ≡ ok content) × Done env c req c')

same : (c : Control) → SameState c c
same c = (refl, refl, refl, refl, refl)

Settled-Ends :
    (env : Env) (c : Control) (req : Request) (h : Handled Nodes)
    → Settled env c req h
    → Ends env c req h
unfolding Settled
Settled-Ends env c req (c', err e) p = inl (subst (SameState c) (sym p) (same c), inr (e, refl))
Settled-Ends env c req (c', ok content) p = inr (content, refl, p)

-- A branch of the dispatch on the action.
on_action :
    (env : Env) (c : Control) (req : Request) (t : Text) (x y : Handled Nodes)
    → (req.action ≡ t → Ends env c req x)
    → Ends env c req y
    → Ends env c req (if text_eq req.action t then x else y)
on_action env c req t x y f p = by_test (text_eq req.action t) refl
  where
    by_test : (b : Bool) → text_eq req.action t ≡ b → Ends env c req (if b then x else y)
    by_test true e = f ((text_eq_iff req.action t).0 e)
    by_test false e = p

quiet :
    (env : Env) (c : Control) (req : Request) (t : Text) (h : Handled Nodes)
    → SameState c h.0
    → is_stateful t ≡ false
    → req.action ≡ t
    → Ends env c req h
quiet env c req t h s q e = inl (s, inl (ap is_stateful e ∙ q))

checked-Same : (locked : Answer Bool) (c : Control) → SameState c (check_if_locked locked c).0
unfolding check_if_locked note_failure note_recovered
checked-Same (answers b) c = (refl, refl, refl, refl, refl)
checked-Same (raises e) c = (refl, refl, refl, refl, refl)

logs-Same : (env : Env) (c : Control) (req : Request) → SameState c (do_get_logs env c req).0
unfolding do_get_logs
logs-Same env c req = same c

message-Same : (env : Env) (c : Control) (req : Request) → SameState c (do_message env c req).0
unfolding do_message send_message send_parent_message show
message-Same env c req = ground arith

shutdown-Same : (env : Env) (c : Control) (req : Request) → SameState c (do_shutdown env c req).0
unfolding do_shutdown shutdown_pc
shutdown-Same env c req = ground arith

-- What is read after one variable.
rest-Same :
    (c c' c'' : Control) (children : Result Nodes) (name : Text) (v : Result Value)
    → SameState c c'
    → SameState c' c''
    → SameState c
        (elim v as (λ _. Handled Nodes) [
          | err e ↦ (c', err e)
          | ok value ↦ (c'', children >>= λ ns. ok (cons (node name (value ∷ []) nil) ns))
        ]).0
rest-Same c c' c'' children name (err e) p q = p
rest-Same c c' c'' children name (ok value) p q = ground arith

reading_actions :
    (is_stateful (codes "list_capabilities") ≡ false)
    × (is_stateful (codes "get_logs") ≡ false)
    × (is_stateful (codes "get") ≡ false)
    × (is_stateful (codes "message") ≡ false)
    × (is_stateful (codes "shutdown") ≡ false)
unfolding member text_eq
reading_actions = (refl, refl, refl, refl, refl)

module _ (allowance_label : ℕ → Text) where
  access-Same :
      (env : Env) (c : Control)
      → SameState c (get_access_status allowance_label env.locked c env.now).0
  unfolding get_access_status
  access-Same env c = checked-Same env.locked c

  variable-Same :
      (env : Env) (c : Control) (var : Text)
      → SameState c (read_variable allowance_label env c var).0
  unfolding read_variable
  variable-Same env c var = ground (arith, checked-Same env.locked c, access-Same env c)

  all-Same :
      (env : Env) (l : List (Text × Text)) (c : Control)
      → SameState c (read_all allowance_label env l c).0
  unfolding read_all
  all-Same env [] c = same c
  all-Same env ((name, about) ∷ l) c =
      rest-Same c (read_variable allowance_label env c name).0
        (read_all allowance_label env l (read_variable allowance_label env c name).0).0
        (read_all allowance_label env l (read_variable allowance_label env c name).0).1 name
        (read_variable allowance_label env c name).1 (variable-Same env c name)
        (all-Same env l (read_variable allowance_label env c name).0)

  get-Same :
      (env : Env) (c : Control) (req : Request) → SameState c (do_get allowance_label env c req).0
  unfolding do_get
  get-Same env c req =
      ground (arith, all-Same env variables c, variable-Same env c (var_text req.var))

  -- Whatever the request, either settings, usage and files are as they were, and its action is none of
  -- those that change them or it was refused; or it succeeded, and the control is what `save_state`
  -- makes of it after the one change that the action, the variable and the operand ask for, with a
  -- limit or an extension from 1 to 1440 minutes or a valid time of day. Unless the state files could
  -- not be read before, the settings and the usage in memory are then those of the change, stamped
  -- with the time of the save.
  pub dispatch-Ends :
      (env : Env) (c : Control) (req : Request)
      → Ends env c req (dispatch allowance_label env c req)
  unfolding dispatch
  dispatch-Ends env c req =
      on_action env c req (codes "list_capabilities") _ _
        (quiet env c req (codes "list_capabilities") (c, ok capabilities_content) (same c)
          reading_actions.0)
        (on_action env c req (codes "get_logs") _ _
          (quiet env c req (codes "get_logs") (do_get_logs env c req) (logs-Same env c req)
            reading_actions.1)
          (on_action env c req (codes "get") _ _
            (quiet env c req (codes "get") (do_get allowance_label env c req) (get-Same env c req)
              reading_actions.2)
            (on_action env c req (codes "set") _ _
              (λ e. Settled-Ends env c req (do_set env c req) (do_set-Settled env c req e))
              (on_action env c req (codes "clear") _ _
                (λ e. Settled-Ends env c req (do_clear env c req) (do_clear-Settled env c req e))
                (on_action env c req (codes "extend") _ _
                  (λ e.
                    Settled-Ends env c req (do_extend env c req) (do_extend-Settled env c req e))
                  (on_action env c req (codes "message") _ _
                    (quiet env c req (codes "message") (do_message env c req)
                      (message-Same env c req) reading_actions.3)
                    (on_action env c req (codes "shutdown") _ _
                      (quiet env c req (codes "shutdown") (do_shutdown env c req)
                        (shutdown-Same env c req) reading_actions.4)
                      (on_action env c req (codes "lock") _ _
                        (λ e. Settled-Ends env c req _ (
                          saved-Settled env c req (engage_manual_lock env.lock_done c)
                            (str (codes "locked")) (locking e)))
                        (on_action env c req (codes "unlock") _ _
                          (λ e. Settled-Ends env c req _ (
                            saved-Settled env c req (clear_manual_lock c) (str (codes "unlocked"))
                              (unlocking e)))
                          (inl (same c, inr (_, refl))))))))))))
