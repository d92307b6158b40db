-- ===== src/State/Load/Bounds.antt =====
-- The range of what the loaders of the state files accept.
use kid_pc_monitor.Base.{
  ◌≤◌, ◌≡◌, refl, subst, Bool, true, false, Option, none, some, String, arith, leb, leb→le,
  if◌then◌else◌,
}
use kid_pc_monitor.Base.Text.{Text, codes, strip}
use kid_pc_monitor.Base.Int.{ℤ, pos, negsuc, magnitude}
use kid_pc_monitor.Clock.{Time, IsTime}
use kid_pc_monitor.Policy.{default_wake_time, parse_time_hhmm}
use kid_pc_monitor.Policy.Hhmm.{parse_time_hhmm_accepts}
use kid_pc_monitor.Wire.{Result, ok, err, ◌>>=◌, bind_inv, ok_injective}
use kid_pc_monitor.Wire.Token.{match_int_word}
use kid_pc_monitor.State.{DailySettings}
use kid_pc_monitor.State.Values.{
  Floats, Json, null, bool, int, real, str, empty_list, list_of_text, list_of_other, object,
  max_abs_int, check_range, whole_or, int_text, non_negative, as_int, as_nonneg_int, as_time,
  time_or,
}
use kid_pc_monitor.State.Timestamp.{Iso}
use kid_pc_monitor.State.Load.{
  Dict, get, given, not_blank, read_or, read_optional, load_daily_from_dict,
}

-- What every check of the values promises of a result, where there is one.
abbrev Every : {A : Type 0} → (A → Type 0) → Result A → Type 0
Every P (err e) = Unit
Every P (ok a) = P a

abbrev pub EveryOption : {A : Type 0} → (A → Type 0) → Option A → Type 0
EveryOption P none = Unit
EveryOption P (some a) = P a

Every-ok : {A : Type 0} (P : A → Type 0) (r : Result A) {a : A} → Every P r → r ≡ ok a → P a
Every-ok P r h e = subst (Every P) e h

Every-bind :
    {A B : Type 0} (P : A → Type 0) (Q : B → Type 0) (m : Result A) (f : A → Result B)
    → Every P m
    → ((a : A) → P a → Every Q (f a))
    → Every Q (m >>= f)
Every-bind P Q (err e) f h g = tt
Every-bind P Q (ok a) f h g = g a h

Every-any : {A : Type 0} (m : Result A) → Every (λ _. Unit) m
Every-any (err e) = tt
Every-any (ok a) = tt

read_or-Every :
    {F A : Type 0} (P : A → Type 0) (default : A) (read : Json F → Result A) (v : Option (Json F))
    → P default
    → ((v : Json F) → Every P (read v))
    → Every P (read_or default read v)
read_or-Every P default read none d h = d
read_or-Every P default read (some v) d h = h v

read_optional-Every :
    {F A : Type 0} (P : A → Type 0) (read : Json F → Result A) (v : Option (Json F))
    → ((v : Json F) → Every P (read v))
    → Every (EveryOption P) (read_optional read v)
read_optional-Every P read none h = tt
read_optional-Every P read (some v) h = Every-bind P _ (read v) _ (h v) (λ a p. p)

read_time-IsTime : (s : Text) (o : Option Time) → parse_time_hhmm s ≡ o → Every IsTime (time_or s o)
read_time-IsTime s none e = tt
read_time-IsTime s (some t) e = (parse_time_hhmm_accepts s e).0

Every-if :
    {A : Type 0} (P : A → Type 0) (b : Bool) (x y : Result A)
    → (b ≡ true → Every P x)
    → (b ≡ false → Every P y)
    → Every P (if b then x else y)
Every-if P true x y h g = h refl
Every-if P false x y h g = g refl

abbrev InRange : ℤ → Type 0
InRange n = magnitude n ≤ max_abs_int

check_range-InRange : (field : String) (n : ℤ) → Every InRange (check_range field n)
unfolding check_range
check_range-InRange field n =
    Every-if InRange (leb (magnitude n) max_abs_int) (ok n) _ (λ h. leb→le _ _ h) (λ _. tt)

non_negative-le :
    (field : String) (n : ℤ) → InRange n → Every (λ k. k ≤ max_abs_int) (non_negative field n)
non_negative-le field (pos n) h = omega arith
non_negative-le field (negsuc n) h = tt

module _ (fl : Floats) (iso : Iso) where
  open fl use {F, whole}

  as_time-IsTime : (v : Json F) (field : String) → Every IsTime (as_time fl v field)
  unfolding as_time
  as_time-IsTime (str s) field = read_time-IsTime s (parse_time_hhmm s) refl
  as_time-IsTime null field = tt
  as_time-IsTime (bool b) field = tt
  as_time-IsTime (int n) field = tt
  as_time-IsTime (real x) field = tt
  as_time-IsTime empty_list field = tt
  as_time-IsTime (list_of_text s) field = tt
  as_time-IsTime list_of_other field = tt
  as_time-IsTime object field = tt

  then_range : (field : String) (m : Result ℤ) → Every InRange (m >>= λ n. check_range field n)
  then_range field m =
      Every-bind (λ _. Unit) InRange m _ (Every-any m) (λ n _. check_range-InRange field n)

  as_int-InRange : (v : Json F) (field : String) → Every InRange (as_int fl v field)
  unfolding as_int
  as_int-InRange (int n) field = check_range-InRange field n
  as_int-InRange (real x) field = then_range field (whole_or field (whole x))
  as_int-InRange (str s) field = then_range field (int_text field (match_int_word (strip s)))
  as_int-InRange null field = tt
  as_int-InRange (bool b) field = tt
  as_int-InRange empty_list field = tt
  as_int-InRange (list_of_text s) field = tt
  as_int-InRange list_of_other field = tt
  as_int-InRange object field = tt

  as_nonneg_int-le :
      (v : Json F) (field : String) → Every (λ k. k ≤ max_abs_int) (as_nonneg_int fl v field)
  unfolding as_nonneg_int
  as_nonneg_int-le v field =
      Every-bind InRange _ (as_int fl v field) _ (as_int-InRange v field) (non_negative-le field)

  -- Settings that the rest of the agent can rely on.
  abbrev pub IsSound : DailySettings → Type 0
  IsSound daily =
      IsTime daily.wake_time
      × EveryOption IsTime daily.bed_time
      × EveryOption (λ k. k ≤ max_abs_int) daily.allowance

  default-IsTime : IsTime default_wake_time
  default-IsTime = omega arith

  -- Whatever the payload, settings that `load_daily_from_dict` returns have a valid wake-up time, a
  -- valid bed time if any, and an allowance, if any, of at most 2 ^ 53 minutes.
  pub load_daily_from_dict-IsSound :
      (d : Dict F) {daily : DailySettings}
      → load_daily_from_dict fl iso d ≡ ok daily
      → IsSound daily
  unfolding load_daily_from_dict
  load_daily_from_dict-IsSound d h =
      let wake = get (codes "wake_time") d in
      let bed = not_blank (get (codes "bed_time") d) in
      let allowance = given (get (codes "allowance") d) in
      let (w, p, h₁) =
        bind_inv (read_or default_wake_time (λ v. as_time fl v "wake_time") wake) _ h in
      let (b, q, h₂) = bind_inv (read_optional (λ v. as_time fl v "bed_time") bed) _ h₁ in
      let (a, r, h₃) =
        bind_inv (read_optional (λ v. as_nonneg_int fl v "allowance") allowance) _ h₂ in
      subst IsSound (ok_injective h₃) (
        Every-ok IsTime _
            (read_or-Every IsTime default_wake_time _ wake default-IsTime
              (λ v. as_time-IsTime v "wake_time"))
            p,
        Every-ok _ _ (read_optional-Every IsTime _ bed (λ v. as_time-IsTime v "bed_time")) q,
        Every-ok _ _
            (read_optional-Every (λ k. k ≤ max_abs_int) _ allowance
              (λ v. as_nonneg_int-le v "allowance"))
            r,
      )
