-- ===== src/Wire/Frame/RoundTrip.antt =====
-- A frame that was encoded is read back.
use kid_pc_monitor.Base.{
  append_assoc, ℕ, suc, ◌≤◌, ◌≡◌, refl, ap, ◌∙◌, true, Option, none, some, [], ◌∷◌, ◌++◌, arith,
  all, length, take-length_append, drop-length_append, length-append,
}
use kid_pc_monitor.Base.Text.{Text, Bytes, is_digit}
use kid_pc_monitor.Base.Decimal.{length-emit, print_nat, read_nat-print_nat, all_digits-print_nat}
use kid_pc_monitor.Base.Utf8.{encode, decode, IsUnicode, decode-encode}
use kid_pc_monitor.Wire.{ok, ◌>>=◌, ok_injective}
use kid_pc_monitor.Wire.Token.Printed.Words.{plain_digits-print_nat}
use kid_pc_monitor.Wire.Token.{int_of_digits}
use kid_pc_monitor.Wire.Frame.{
  utf8_encode, utf8_decode, encode_frame, complete, split_newline, inspect_body, inspect_frame,
  encoded,
}

-- Digits hold no newline.
pub split_newline-digits :
    (d s : Bytes) → all is_digit d ≡ true → split_newline (d ++ (10 ∷ s)) ≡ some (d, s)
unfolding split_newline
split_newline-digits [] s h = refl
split_newline-digits (c ∷ d) s h = ground (arith, split_newline-digits d s)

pub length-print_nat : (n : ℕ) → n ≤ 65536 → length (print_nat n) ≤ 5
unfolding print_nat
length-print_nat n h = ground (arith, length-emit (suc n) n 5 [] (omega arith))

pub int_of_digits-print_nat : (n : ℕ) → n ≤ 65536 → int_of_digits (print_nat n) ≡ ok n
unfolding int_of_digits
int_of_digits-print_nat n h = ground (arith, length-print_nat n h, read_nat-print_nat n)

-- The shape of a frame, whatever follows its body.
split_newline-frame :
    (payload rest : Bytes)
    → split_newline ((print_nat (length payload) ++ (10 ∷ payload)) ++ rest)
      ≡ some (print_nat (length payload), payload ++ rest)
split_newline-frame payload rest =
    let d = print_nat (length payload) in
    ap split_newline (append_assoc d (10 ∷ payload) rest)
    ∙ split_newline-digits d (payload ++ rest) (all_digits-print_nat (length payload))

pub encoded_inv : (o : Option Bytes) {p : Bytes} → encoded o ≡ ok p → o ≡ some p
encoded_inv none e = cc
encoded_inv (some q) e = ap some (ok_injective e)

module _ (body : Text) (payload rest : Bytes) where
  inspect_body-payload :
      (buffer : Bytes)
      → decode payload ≡ some body
      → length payload ≤ 65536
      → inspect_body buffer (length payload) (payload ++ rest) ≡ ok (complete body rest)
  unfolding inspect_body utf8_decode
  inspect_body-payload buffer d h = ground (
    arith,
    length-append payload rest,
    take-length_append payload rest,
    drop-length_append payload rest,
  )

  -- The frame of a body whose UTF-8 form has at most 65536 bytes is what `inspect_frame` finds in
  -- front of any further bytes, and it gives these bytes back.
  pub inspect_frame-encode_frame :
      IsUnicode body
      → utf8_encode body ≡ ok payload
      → length payload ≤ 65536
      → (encode_frame body >>= λ b. inspect_frame (b ++ rest)) ≡ ok (complete body rest)
  unfolding encode_frame inspect_frame utf8_encode
  inspect_frame-encode_frame u e h =
      let n = length payload in
      rw e (
        rw (split_newline-frame payload rest, plain_digits-print_nat n, int_of_digits-print_nat n h)
          (inspect_body-payload _ (decode-encode body payload u (encoded_inv (encode body) e)) h))
