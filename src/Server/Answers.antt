-- ===== src/Server/Answers.antt =====
-- What `handle_request` does with a body: only accepted requests reach the control object.
use kid_pc_monitor.Base.{ℕ, ◌≡◌, refl, sym, subst, ◌⊎◌, inl, inr, Option}
use kid_pc_monitor.Base.Text.{Text, Bytes}
use kid_pc_monitor.Base.Int.{ℤ, pos_part}
use kid_pc_monitor.Wire.{Value, Nodes, Exn, Result, ok, err}
use kid_pc_monitor.Wire.Parse.{peek_version}
use kid_pc_monitor.Request.{Request, parse_request}
use kid_pc_monitor.Request.Accept.{Accepted, parse_request-Accepted}
use kid_pc_monitor.Control.{Control}
use kid_pc_monitor.Dispatch.Operands.{Env, Handled}
use kid_pc_monitor.Dispatch.{dispatch}
use kid_pc_monitor.Server.{Stamp, handle_request, reply_to, handled}

handled-control : (h : Handled Nodes) (i : Option Text) (v : ℕ) → (handled h i v).0 ≡ h.0
unfolding handled
handled-control (c, ok content) i v = refl
handled-control (c, err e) i v = refl

module _ (mac : Bytes → Bytes → Text) (repr : Value → Text) (allowance_label : ℕ → Text) (env : Env)
    (c : Control) (body secret : Text) (now : ℤ) (stamp : Stamp) where
  -- The control after the body: as it was where `peek_version` or `parse_request` raises, and what
  -- `dispatch` makes of the request where they do not.
  abbrev pub OnlyAccepted : Control → Type 0
  OnlyAccepted c' =
      ((e : Exn) × (peek_version body ≡ err e) × (c' ≡ c))
      ⊎ (((e : Exn) × (parse_request mac repr body secret env.hostname now ≡ err e) × (c' ≡ c))
          ⊎ ((v : ℕ) × (req : Request) × (peek_version body ≡ ok v)
              × (parse_request mac repr body secret env.hostname now ≡ ok req)
              × Accepted mac body secret env.hostname now req
              × (c' ≡ (dispatch allowance_label env c req).0)))

  outcome :
      (v : ℕ) (r : Result Request)
      → peek_version body ≡ ok v
      → parse_request mac repr body secret env.hostname now ≡ r
      → OnlyAccepted (reply_to mac repr allowance_label env c r v).0
  unfolding reply_to
  outcome v (err e) w p = inr (inl (e, p, refl))
  outcome v (ok req) w p = inr (
      inr (
        v,
        req,
        w,
        p,
        parse_request-Accepted mac repr body secret env.hostname now req p,
        handled-control (dispatch allowance_label env c req) req.id (pos_part req.version),
      ))

  -- The control alone.
  handle_request-read :
      (v : ℕ)
      → peek_version body ≡ ok v
      → (handle_request mac repr allowance_label env c body secret now stamp).0
        ≡ (reply_to mac repr allowance_label env c
            (parse_request mac repr body secret env.hostname now)
            v).0
  unfolding handle_request
  handle_request-read v p = rw (p, handle_request) refl

  handle_request-unread :
      (e : Exn)
      → peek_version body ≡ err e
      → (handle_request mac repr allowance_label env c body secret now stamp).0 ≡ c
  unfolding handle_request
  handle_request-unread e p = rw (p, handle_request) refl

  -- Whatever the body: where `peek_version` or `parse_request` raises, the control object stays as it
  -- was; otherwise it is what `dispatch` makes of the request that `parse_request` returned, with all
  -- that this says of the body.
  pub handle_request-OnlyAccepted :
      OnlyAccepted (handle_request mac repr allowance_label env c body secret now stamp).0
  handle_request-OnlyAccepted = by_version (peek_version body) refl
    where
      by_version :
          (v : Result ℕ)
          → peek_version body ≡ v
          → OnlyAccepted (handle_request mac repr allowance_label env c body secret now stamp).0
      by_version (err e) p = inl (e, p, handle_request-unread e p)
      by_version (ok v) p =
          subst OnlyAccepted (sym (handle_request-read v p))
            (outcome v (parse_request mac repr body secret env.hostname now) p refl)
