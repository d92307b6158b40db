-- ===== src/Wire/Frame/Chunks.antt =====
-- `read_frame` on a frame that arrives in pieces.
use kid_pc_monitor.Base.{
  append_assoc, append-nil, suc, ◌+◌, ◌≤◌, ◌<◌, ◌≡◌, ◌⊎◌, inl, inr, refl, sym, ap, subst, ◌∙◌, Bool,
  true, false, List, [], ◌∷◌, ◌++◌, arith, all, length, take-length_le, drop-length, length-append,
  ltb, All,
}
use kid_pc_monitor.Base.Text.{Text, Bytes, is_digit}
use kid_pc_monitor.Base.Decimal.{print_nat, all_digits-print_nat}
use kid_pc_monitor.Base.Utf8.{encode, IsUnicode, decode-encode}
use kid_pc_monitor.Wire.{ok, ok_injective, bind_inv}
use kid_pc_monitor.Wire.Token.Printed.Words.{plain_digits-print_nat}
use kid_pc_monitor.Wire.Frame.{
  utf8_encode, utf8_decode, encode_frame, complete, incomplete, inspect_body, inspect_frame,
  is_empty, has_newline, read_body, read_prefix, read_frame,
}
use kid_pc_monitor.Wire.Frame.RoundTrip.{
  split_newline-digits, length-print_nat, int_of_digits-print_nat, encoded_inv,
}

-- What one `recv(4096)` gives while the connection is open.
abbrev pub IsPiece : Bytes → Type 0
IsPiece c = (1 ≤ length c) × (length c ≤ 4096)

is_empty-IsPiece : (c : Bytes) → IsPiece c → is_empty c ≡ false
is_empty-IsPiece [] p = absurd (omega (arith, p.0))
is_empty-IsPiece (b ∷ s) p = refl

abbrev pub concat : List Bytes → Bytes
concat [] = []
concat (c ∷ cs) = c ++ concat cs

-- A beginning of a text with a newline: it stops before the newline or holds it.
beginning :
    (d : Bytes) (buffer rest payload : Bytes)
    → all is_digit d ≡ true
    → buffer ++ rest ≡ d ++ (10 ∷ payload)
    → ((has_newline buffer ≡ false) × (length buffer ≤ length d))
      ⊎ ((part : Bytes) × (has_newline buffer ≡ true)
          × (buffer ≡ d ++ (10 ∷ part))
          × (part ++ rest ≡ payload))
beginning d [] rest payload h e = inl (refl, ground arith)
beginning [] (b ∷ buffer) rest payload h e =
    let first : b ≡ 10 = cc in
    let others : buffer ++ rest ≡ payload = cc in
    inr (buffer, ground (arith, first), ap (λ c. c ∷ buffer) first, others)
beginning (c ∷ d) (b ∷ buffer) rest payload h e =
    let first : b ≡ c = cc in
    let others : buffer ++ rest ≡ d ++ (10 ∷ payload) = cc in
    by_case (beginning d buffer rest payload (ground (arith, h)) others) first
  where
    by_case :
        ((has_newline buffer ≡ false) × (length buffer ≤ length d))
          ⊎ ((part : Bytes) × (has_newline buffer ≡ true)
              × (buffer ≡ d ++ (10 ∷ part))
              × (part ++ rest ≡ payload))
        → b ≡ c
        → ((has_newline (b ∷ buffer) ≡ false) × (length (b ∷ buffer) ≤ length (c ∷ d)))
          ⊎ ((part : Bytes) × (has_newline (b ∷ buffer) ≡ true)
              × (b ∷ buffer ≡ (c ∷ d) ++ (10 ∷ part))
              × (part ++ rest ≡ payload))
    by_case (inl (n, l)) first = inl (ground (arith, n, h, first), ground (arith, l))
    by_case (inr (part, n, p, q)) first =
        inr (part, ground (arith, n), ap (λ x. b ∷ x) p ∙ ap (λ x. x ∷ (d ++ (10 ∷ part))) first, q)

module _ (body : Text) (payload : Bytes) (unicode : IsUnicode body)
    (encodes : utf8_encode body ≡ ok payload) (fits : length payload ≤ 65536) where
  abbrev prefix : Bytes
  prefix = print_nat (length payload)

  decodes : utf8_decode payload ≡ ok body
  unfolding utf8_decode utf8_encode
  decodes = rw (decode-encode body payload unicode (encoded_inv (encode body) encodes)) refl

  no_rest :
      (part rest : Bytes) → part ++ rest ≡ payload → length payload ≤ length part → part ≡ payload
  no_rest part [] e l = sym (append-nil part) ∙ e
  no_rest part (b ∷ rest) e l =
      let sizes : length part + suc (length rest) ≡ length payload =
        sym (length-append part (b ∷ rest)) ∙ ap length e in
      absurd (ground (arith, sizes, l))

  inspect_body-whole :
      (buffer : Bytes) → inspect_body buffer (length payload) payload ≡ ok (complete body [])
  unfolding inspect_body
  inspect_body-whole buffer =
      rw (take-length_le (length payload) payload (omega arith))
        (ground (arith, decodes, drop-length payload))

  inspect_body-part :
      (buffer part rest : Bytes)
      → part ++ rest ≡ payload
      → (length part < length payload)
          × (inspect_body buffer (length payload) part ≡ ok (incomplete buffer))
        ⊎ (part ≡ payload) × (inspect_body buffer (length payload) part ≡ ok (complete body []))
  unfolding inspect_body
  inspect_body-part buffer part rest e = by_length (ltb (length part) (length payload)) refl
    where
      by_length :
          (b : Bool)
          → ltb (length part) (length payload) ≡ b
          → (length part < length payload)
              × (inspect_body buffer (length payload) part ≡ ok (incomplete buffer))
            ⊎ (part ≡ payload) × (inspect_body buffer (length payload) part ≡ ok (complete body []))
      by_length true l = inl (ground (arith, l), ground (arith, l))
      by_length false l =
          let whole = no_rest part rest e (ground (arith, l)) in
          inr (
            whole,
            subst (λ p. inspect_body buffer (length payload) p ≡ ok (complete body [])) (sym whole)
                (inspect_body-whole buffer),
          )

  -- What `inspect_frame` says once the length is there.
  inspect_frame-part :
      (part : Bytes)
      → inspect_frame (prefix ++ (10 ∷ part))
        ≡ inspect_body (prefix ++ (10 ∷ part)) (length payload) part
  unfolding inspect_frame
  inspect_frame-part part =
      rw
        (
          split_newline-digits prefix part (all_digits-print_nat (length payload)),
          plain_digits-print_nat (length payload),
          int_of_digits-print_nat (length payload) fits,
        )
        refl

  read_body-part :
      (part : Bytes) (chunks : List Bytes)
      → All IsPiece chunks
      → part ++ concat chunks ≡ payload
      → read_body (prefix ++ (10 ∷ part)) chunks ≡ ok body
  unfolding read_body
  read_body-part part [] r e = by_case (inspect_body-part (prefix ++ (10 ∷ part)) part [] e)
    where
      by_case :
          (length part < length payload)
              × (inspect_body (prefix ++ (10 ∷ part)) (length payload) part
                  ≡ ok (incomplete (prefix ++ (10 ∷ part))))
            ⊎ (part ≡ payload)
              × (inspect_body (prefix ++ (10 ∷ part)) (length payload) part ≡ ok (complete body []))
          → read_body (prefix ++ (10 ∷ part)) [] ≡ ok body
      by_case (inl (l, _)) =
          let sizes : length part ≡ length payload = ap length (sym (append-nil part) ∙ e) in
          absurd (ground (arith, l, sizes))
      by_case (inr (_, i)) = rw (inspect_frame-part part) (rw i refl)
  read_body-part part (chunk ∷ chunks) r e =
      by_case (inspect_body-part (prefix ++ (10 ∷ part)) part (chunk ++ concat chunks) e)
        (read_body-part (part ++ chunk) chunks r.1 (append_assoc part chunk (concat chunks) ∙ e))
    where
      by_case :
          (length part < length payload)
              × (inspect_body (prefix ++ (10 ∷ part)) (length payload) part
                  ≡ ok (incomplete (prefix ++ (10 ∷ part))))
            ⊎ (part ≡ payload)
              × (inspect_body (prefix ++ (10 ∷ part)) (length payload) part ≡ ok (complete body []))
          → read_body (prefix ++ (10 ∷ (part ++ chunk))) chunks ≡ ok body
          → read_body (prefix ++ (10 ∷ part)) (chunk ∷ chunks) ≡ ok body
      by_case (inl (l, i)) ih =
          rw (inspect_frame-part part)
            (rw i (rw (is_empty-IsPiece chunk r.0) (rw (append_assoc prefix (10 ∷ part) chunk) ih)))
      by_case (inr (_, i)) ih = rw (inspect_frame-part part) (rw i refl)

  read_prefix-newline :
      (buffer : Bytes) (chunks : List Bytes)
      → has_newline buffer ≡ true
      → read_prefix buffer chunks ≡ read_body buffer chunks
  unfolding read_prefix
  read_prefix-newline buffer [] h = rw h refl
  read_prefix-newline buffer (c ∷ chunks) h = rw h refl

  read_prefix-part :
      (buffer : Bytes) (chunks : List Bytes)
      → All IsPiece chunks
      → buffer ++ concat chunks ≡ prefix ++ (10 ∷ payload)
      → read_prefix buffer chunks ≡ ok body
  unfolding read_prefix
  read_prefix-part buffer [] r e =
      by_case (beginning prefix buffer [] payload (all_digits-print_nat (length payload)) e)
    where
      by_case :
          ((has_newline buffer ≡ false) × (length buffer ≤ length prefix))
            ⊎ ((part : Bytes) × (has_newline buffer ≡ true)
                × (buffer ≡ prefix ++ (10 ∷ part))
                × (part ++ [] ≡ payload))
          → read_prefix buffer [] ≡ ok body
      by_case (inl (n, l)) =
          let sizes : length buffer ≡ length prefix + suc (length payload) =
            ap length (sym (append-nil buffer) ∙ e) ∙ length-append prefix (10 ∷ payload) in
          absurd (omega (arith, l, sizes))
      by_case (inr (part, n, p, q)) =
          read_prefix-newline buffer [] n ∙ ap (λ b. read_body b []) p ∙ read_body-part part [] tt q
  read_prefix-part buffer (chunk ∷ chunks) r e =
      by_case
        (beginning prefix buffer (chunk ++ concat chunks) payload
          (all_digits-print_nat (length payload)) e)
        (read_prefix-part (buffer ++ chunk) chunks r.1
          (append_assoc buffer chunk (concat chunks) ∙ e))
    where
      by_case :
          ((has_newline buffer ≡ false) × (length buffer ≤ length prefix))
            ⊎ ((part : Bytes) × (has_newline buffer ≡ true)
                × (buffer ≡ prefix ++ (10 ∷ part))
                × (part ++ (chunk ++ concat chunks) ≡ payload))
          → read_prefix (buffer ++ chunk) chunks ≡ ok body
          → read_prefix buffer (chunk ∷ chunks) ≡ ok body
      by_case (inl (n, l)) ih =
          let sizes : length (buffer ++ chunk) ≤ 65536 =
            omega (
              arith,
              l,
              length-print_nat (length payload) fits,
              length-append buffer chunk,
              r.0.1,
            ) in
          ground (arith, n, sizes, ih, is_empty-IsPiece chunk r.0)
      by_case (inr (part, n, p, q)) ih =
          read_prefix-newline buffer (chunk ∷ chunks) n
          ∙ ap (λ b. read_body b (chunk ∷ chunks)) p
          ∙ read_body-part part (chunk ∷ chunks) r q

-- A frame is read back however it is cut into pieces: if what `recv(4096)` gives are pieces of 1 to 4096
-- bytes that together are the frame of a body, whose UTF-8 form has at most 65536 bytes, `read_frame`
-- returns the body.
pub read_frame-encode_frame :
    (body : Text) (payload : Bytes) (chunks : List Bytes)
    → IsUnicode body
    → utf8_encode body ≡ ok payload
    → length payload ≤ 65536
    → All IsPiece chunks
    → encode_frame body ≡ ok (concat chunks)
    → read_frame chunks ≡ ok body
unfolding read_frame encode_frame
read_frame-encode_frame body payload chunks u e l r f =
    let (p, g, frame) =
      bind_inv (utf8_encode body) (λ p. ok (print_nat (length p) ++ (10 ∷ p))) f in
    let same : p ≡ payload = ok_injective (sym g ∙ e) in
    read_prefix-part body payload u e l [] chunks r
      (sym (ok_injective frame) ∙ ap (λ (q : Bytes). print_nat (length q) ++ (10 ∷ q)) same)
