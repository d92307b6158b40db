-- ===== src/Policy/Hhmm.antt =====
-- Times as H:MM and HH:MM text.
use kid_pc_monitor.Base.{ℕ, ◌+◌, ◌<◌, ◌≡◌, ◌⊎◌, inl, inr, ◌++◌, Option, none, some, [], ◌∷◌, arith}
use kid_pc_monitor.Base.Text.{Text, strip}
use kid_pc_monitor.Base.Decimal.{two_digits}
use kid_pc_monitor.Clock.{Time, IsTime}
use kid_pc_monitor.Policy.{parse_time_hhmm, checked_time, match_hhmm, format_time}

-- What `_HHMM_RE` accepts is two digits, or one digit, then the colon and two digits.
abbrev Shape : Text → ℕ → ℕ → Type 0
Shape s h m =
    (s ≡ two_digits h ++ (58 ∷ two_digits m)) ⊎ ((h < 10) × (s ≡ (48 + h) ∷ 58 ∷ two_digits m))

module _ {h m : ℕ} where
  short_shape :
      (a b c d : ℕ)
      → match_hhmm (a ∷ b ∷ c ∷ d ∷ []) ≡ some (h, m)
      → (h < 10) × (a ∷ b ∷ c ∷ d ∷ [] ≡ (48 + h) ∷ 58 ∷ two_digits m)
  unfolding match_hhmm two_digits
  short_shape a b c d e = ground arith

  long_shape :
      (a b c d e : ℕ)
      → match_hhmm (a ∷ b ∷ c ∷ d ∷ e ∷ []) ≡ some (h, m)
      → a ∷ b ∷ c ∷ d ∷ e ∷ [] ≡ two_digits h ++ (58 ∷ two_digits m)
  unfolding match_hhmm two_digits
  long_shape a b c d e p = ground arith

  match_hhmm-Shape : (s : Text) → match_hhmm s ≡ some (h, m) → Shape s h m
  unfolding match_hhmm
  match_hhmm-Shape [] e = cc
  match_hhmm-Shape (a ∷ []) e = cc
  match_hhmm-Shape (a ∷ b ∷ []) e = cc
  match_hhmm-Shape (a ∷ b ∷ c ∷ []) e = cc
  match_hhmm-Shape (a ∷ b ∷ c ∷ d ∷ []) e = inr (short_shape a b c d e)
  match_hhmm-Shape (a ∷ b ∷ c ∷ d ∷ f ∷ []) e = inl (long_shape a b c d f e)
  match_hhmm-Shape (a ∷ b ∷ c ∷ d ∷ f ∷ g ∷ r) e = cc

in_range_valid :
    (g : Option (ℕ × ℕ)) {t : Time}
    → checked_time g ≡ some t
    → IsTime t × (g ≡ some (t.hour, t.minute))
in_range_valid none e = ground arith
in_range_valid (some (h, m)) e = ground arith

-- Whatever text is accepted, the result is a valid time, and the text without the white space
-- around it is that time's HH:MM form, or its H:MM form where the hour has one digit.
pub parse_time_hhmm_accepts :
    (value : Text) {t : Time}
    → parse_time_hhmm value ≡ some t
    → IsTime t
      × ((strip value ≡ format_time t)
          ⊎ ((t.hour < 10) × (strip value ≡ (48 + t.hour) ∷ 58 ∷ two_digits t.minute)))
unfolding parse_time_hhmm format_time
parse_time_hhmm_accepts value e =
    let p = in_range_valid (match_hhmm (strip value)) e in (p.0, match_hhmm-Shape (strip value) p.1)

strip-format_time : (t : Time) → IsTime t → strip (format_time t) ≡ format_time t
unfolding strip format_time
strip-format_time t v = ground arith

-- The time that `format_time` printed is read back.
pub parse_time_hhmm-format_time : (t : Time) → IsTime t → parse_time_hhmm (format_time t) ≡ some t
unfolding parse_time_hhmm format_time
parse_time_hhmm-format_time t v = rw (strip-format_time t v) (ground arith)
