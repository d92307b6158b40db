-- ===== src/State/Values.antt =====
-- The checks of single JSON values in src/kid_pc_monitor/agent_state.py: `_as_int`, `_as_nonneg_int`,
-- `_as_nonneg_float`, `_as_bool` and `_as_time`. A `ValueError` is `exception` with its text.
-- Python's floats are the parameter `Floats`; the model keeps whole microseconds of a number of seconds.
use kid_pc_monitor.Base.{
  ℕ, ◌+◌, ◌*◌, ◌^◌, Bool, true, false, ◌&&◌, ◌||◌, Option, none, some, String, [], ◌∷◌, ◌++◌, map,
  leb, ◌==◌, if◌then◌else◌,
}
use kid_pc_monitor.Base.Text.{Text, codes, text_eq, strip, is_digit}
use kid_pc_monitor.Base.Int.{ℤ, pos, negsuc, magnitude}
use kid_pc_monitor.Clock.{Time}
use kid_pc_monitor.Policy.{parse_time_hhmm, match_hhmm}
use kid_pc_monitor.Policy.Status.{lower}
use kid_pc_monitor.Wire.{Exn, exception, Result, ok, err, ◌>>=◌}
use kid_pc_monitor.Wire.Token.{plain_digits, match_int_word, int_of_word}

-- What the loaders use of Python's floats.
pub record Floats : Type 1 where
  pub F : Type 0
  pub whole : F → Option ℤ  -- the integer that a finite, integral float is
  pub micros : F → Option ℕ  -- microseconds of a finite, non-negative number of seconds
  pub of_text : Text → F  -- `float(text)` of a decimal numeral
  pub round_3 : ℕ → F  -- `round(seconds, 3)`, of so many microseconds

-- A value of a JSON object, as far as the loaders look: a list by its first element.
pub data Json (F : Type 0) : Type 0 where
  null : Json F
  bool : Bool → Json F
  int : ℤ → Json F
  real : F → Json F
  str : Text → Json F
  empty_list : Json F
  list_of_text : Text → Json F  -- the first element is this text
  list_of_other : Json F  -- the first element is no text
  object : Json F

abbrev pub invalid : {A : Type 0} → String → String → Result A
invalid field message = err (exception (codes field ++ codes message))

-- `_MAX_ABS_INT`
abbrev pub max_abs_int : ℕ
max_abs_int = 2 ^ 53

unfoldable pub check_range : String → ℤ → Result ℤ
check_range field n =
    if leb (magnitude n) max_abs_int then ok n else invalid field " is out of range"

abbrev pub whole_or : String → Option ℤ → Result ℤ
whole_or field none = invalid field " must be a whole number"
whole_or field (some n) = ok n

abbrev pub int_text : String → Option (Bool × Text) → Result ℤ
int_text field none = invalid field " must be a whole number"
int_text field (some word) = int_of_word word

-- `_as_nonneg_int`, after `_as_int`.
abbrev pub non_negative : String → ℤ → Result ℕ
non_negative field (pos n) = ok n
non_negative field (negsuc n) = invalid field " must not be negative"

abbrev finite_or : String → Option ℕ → Result ℕ
finite_or field none = invalid field " must be a finite, non-negative number"
finite_or field (some n) = ok n

-- `_FLOAT_RE.fullmatch`, from the end of a numeral to its start.
abbrev pub exponent_digits : Text → Bool
exponent_digits [] = false
exponent_digits (c ∷ s) = if c == 43 || c == 45 then plain_digits s else plain_digits (c ∷ s)

abbrev pub exponent : Text → Bool
exponent [] = true
exponent (c ∷ s) = (c == 101 || c == 69) && exponent_digits s

unfoldable pub skip_digits : Text → Text
skip_digits [] = []
skip_digits (c ∷ s) = let rest = skip_digits s in if is_digit c then rest else c ∷ s

abbrev pub fraction : Text → Bool
fraction [] = true
fraction (c ∷ s) = if c == 46 then exponent (skip_digits s) else exponent (c ∷ s)

abbrev pub unsigned_float : Text → Bool
unsigned_float [] = false
unsigned_float (c ∷ []) = is_digit c
unsigned_float (c ∷ d ∷ s) =
    if c == 46
    then is_digit d && exponent (skip_digits s)
    else is_digit c && fraction (skip_digits (d ∷ s))

unfoldable pub is_float_text : Text → Bool
unfolding skip_digits
is_float_text [] = false
is_float_text (c ∷ s) = if c == 43 || c == 45 then unsigned_float s else unsigned_float (c ∷ s)

abbrev seconds_of_int : String → ℤ → Result ℕ
seconds_of_int field (pos n) =
    if leb n max_abs_int then ok (n * 1_000_000) else invalid field " is out of range"
seconds_of_int field (negsuc n) =
    if leb (n + 1) max_abs_int
    then invalid field " must be a finite, non-negative number"
    else invalid field " is out of range"

abbrev time_message : Text → Exn
time_message value = exception (
    codes "Invalid time '"
    ++ (value ++ elim (match_hhmm (strip value)) as (λ _. Text) [
      | none ↦ codes "'; use HH:MM"
      | some _ ↦ codes "'; hour/minute out of range"
    ]))

abbrev pub time_or : Text → Option Time → Result Time
time_or value none = err (time_message value)
time_or value (some t) = ok t

-- `parse_time_hhmm` with its `ValueError`.
unfoldable pub read_time : Text → Result Time
read_time value = time_or value (parse_time_hhmm value)

module _ (fl : Floats) where
  open fl use {F, whole, micros, of_text}

  unfoldable pub as_int : Json F → String → Result ℤ
  unfolding check_range
  as_int (bool b) field = invalid field " must be a number"
  as_int (int n) field = check_range field n
  as_int (real x) field = do n ← whole_or field (whole x); check_range field n
  as_int (str s) field = do n ← int_text field (match_int_word (strip s)); check_range field n
  as_int null field = invalid field " must be a whole number"
  as_int empty_list field = invalid field " must be a whole number"
  as_int (list_of_text s) field = invalid field " must be a whole number"
  as_int list_of_other field = invalid field " must be a whole number"
  as_int object field = invalid field " must be a whole number"

  unfoldable pub as_nonneg_int : Json F → String → Result ℕ
  unfolding as_int
  as_nonneg_int value field = do n ← as_int value field; non_negative field n

  -- The number of seconds, in microseconds.
  unfoldable pub as_nonneg_float : Json F → String → Result ℕ
  unfolding is_float_text
  as_nonneg_float (bool b) field = invalid field " must be a number"
  as_nonneg_float (int n) field = seconds_of_int field n
  as_nonneg_float (real x) field = finite_or field (micros x)
  as_nonneg_float (str s) field =
      if is_float_text (strip s)
      then finite_or field (micros (of_text (strip s)))
      else invalid field " must be a number"
  as_nonneg_float null field = invalid field " must be a number"
  as_nonneg_float empty_list field = invalid field " must be a number"
  as_nonneg_float (list_of_text s) field = invalid field " must be a number"
  as_nonneg_float list_of_other field = invalid field " must be a number"
  as_nonneg_float object field = invalid field " must be a number"

  -- Lowering ASCII decides the same words as `str.lower`.
  unfoldable pub as_bool : Json F → String → Result Bool
  as_bool (bool b) field = ok b
  as_bool (int (pos n)) field =
      if n == 0
      then ok false
      else if n == 1
      then ok true
      else invalid field " must be true or false"
  as_bool (str s) field =
      let word = map lower (strip s) in
      if text_eq word (codes "true")
      then ok true
      else if text_eq word (codes "false")
      then ok false
      else invalid field " must be true or false"
  as_bool (int (negsuc n)) field = invalid field " must be true or false"
  as_bool (real x) field = invalid field " must be true or false"
  as_bool null field = invalid field " must be true or false"
  as_bool empty_list field = invalid field " must be true or false"
  as_bool (list_of_text s) field = invalid field " must be true or false"
  as_bool list_of_other field = invalid field " must be true or false"
  as_bool object field = invalid field " must be true or false"

  unfoldable pub as_time : Json F → String → Result Time
  unfolding read_time
  as_time (str s) field = read_time s
  as_time null field = invalid field " must be an HH:MM string"
  as_time (bool b) field = invalid field " must be an HH:MM string"
  as_time (int n) field = invalid field " must be an HH:MM string"
  as_time (real x) field = invalid field " must be an HH:MM string"
  as_time empty_list field = invalid field " must be an HH:MM string"
  as_time (list_of_text s) field = invalid field " must be an HH:MM string"
  as_time list_of_other field = invalid field " must be an HH:MM string"
  as_time object field = invalid field " must be an HH:MM string"
