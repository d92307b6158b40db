-- ===== src/State/Timestamp.antt =====
-- `_TIMESTAMP_RE`, `_DATE_RE`, `_parse_timestamp` and `_parse_date` of
-- src/kid_pc_monitor/agent_state.py. Python's reading of ISO dates is the parameter `Iso`.
use kid_pc_monitor.Base.{
  ℕ, zero, suc, ◌+◌, ◌-◌, ◌*◌, Bool, true, false, not, ◌&&◌, ◌||◌, Option, none, some, String, [],
  ◌∷◌, ◌++◌, ltb, ◌==◌, if◌then◌else◌, drop, length,
}
use kid_pc_monitor.Base.Text.{Text, codes, is_digit}
use kid_pc_monitor.Clock.{DateTime}
use kid_pc_monitor.Wire.{exception, Result, err}

-- The library's conversions: `datetime.fromisoformat(text).replace(tzinfo=None)`,
-- `date.fromisoformat(text)` as an ordinal, `isoformat(timespec="seconds")`, and `repr` of a text.
pub record Iso : Type 0 where
  pub read_datetime : Text → Result DateTime
  pub read_date : Text → Result ℕ
  pub print_datetime : DateTime → Text
  pub repr_text : Text → Text

-- `[0-9]{n}`: what follows so many digits.
unfoldable pub digits : ℕ → Text → Option Text
digits zero s = some s
digits (suc n) [] = none
digits (suc n) (c ∷ s) = let rest = digits n s in if is_digit c then rest else none

-- The character `c`, and then what `after` takes.
abbrev pub literal : ℕ → Option Text → Option Text
literal c none = none
literal c (some []) = none
literal c (some (d ∷ s)) = if d == c then some s else none

abbrev pub then_digits : ℕ → Option Text → Option Text
then_digits n none = none
then_digits n (some s) = digits n s

-- `_DATE`
unfoldable pub match_date : Text → Option Text
unfolding digits
match_date s = then_digits 2 (literal 45 (then_digits 2 (literal 45 (digits 4 s))))

-- `_OFFSET?` up to the end.
abbrev pub offset_minutes : Option Text → Bool
offset_minutes none = false
offset_minutes (some s) = elim (digits 2 s) [ none ↦ false | some [] ↦ true | some (_ ∷ _) ↦ false ]

abbrev pub offset_tail : Option Text → Bool
offset_tail none = false
offset_tail (some []) = true
offset_tail (some (c ∷ s)) =
    if c == 58 then offset_minutes (some s) else offset_minutes (some (c ∷ s))

abbrev pub offset_end : Text → Bool
offset_end [] = true
offset_end (c ∷ []) = c == 90
offset_end (c ∷ d ∷ s) = (c == 43 || c == 45) && offset_tail (digits 2 (d ∷ s))

-- `[0-9]+` after the decimal separator, and then the offset.
unfoldable pub fraction_end : Bool → Text → Bool
unfolding digits
fraction_end due [] = not due
fraction_end due (c ∷ s) =
    let rest = fraction_end false s in
    if is_digit c then rest else if due then false else offset_end (c ∷ s)

abbrev pub seconds_end : Option Text → Bool
seconds_end none = false
seconds_end (some []) = true
seconds_end (some (c ∷ s)) = if c == 46 || c == 44 then fraction_end true s else offset_end (c ∷ s)

abbrev pub minutes_end : Option Text → Bool
minutes_end none = false
minutes_end (some []) = true
minutes_end (some (c ∷ s)) = if c == 58 then seconds_end (digits 2 s) else offset_end (c ∷ s)

abbrev pub hours_end : Option Text → Bool
hours_end none = false
hours_end (some []) = true
hours_end (some (c ∷ s)) = if c == 58 then minutes_end (digits 2 s) else offset_end (c ∷ s)

abbrev pub time_part : Option Text → Bool
time_part none = false
time_part (some []) = true
time_part (some (c ∷ s)) = (c == 84 || c == 32) && hours_end (digits 2 s)

-- `_TIMESTAMP_RE.fullmatch`
unfoldable pub is_timestamp : Text → Bool
unfolding match_date fraction_end
is_timestamp s = time_part (match_date s)

-- `_DATE_RE.fullmatch`
unfoldable pub is_date : Text → Bool
unfolding match_date
is_date s = elim (match_date s) [ none ↦ false | some [] ↦ true | some (_ ∷ _) ↦ false ]

-- `int(raw[11:13])` of a text that `_TIMESTAMP_RE` matches.
abbrev two_digit_number : Text → ℕ
two_digit_number (a ∷ b ∷ s) = (a - 48) * 10 + (b - 48)
two_digit_number _ = 0

-- `len(raw) > 10 and int(raw[11:13]) > 23`
abbrev pub late_hour : Text → Bool
late_hour raw = ltb 10 (length raw) && ltb 23 (two_digit_number (drop 11 raw))

module _ (iso : Iso) where
  unfoldable pub parse_timestamp : Text → Result DateTime
  unfolding is_timestamp
  parse_timestamp raw =
      let bad = exception (codes "Invalid timestamp " ++ iso.repr_text raw) in
      if is_timestamp raw
      then (if late_hour raw then err bad else iso.read_datetime raw)
      else err bad

  unfoldable pub parse_date : Text → String → Result ℕ
  unfolding is_date
  parse_date value field =
      if is_date value
      then iso.read_date value
      else err (exception (codes field ++ codes " must be a YYYY-MM-DD date"))
