-- ===== src/Base/Utf8.antt =====
-- `str.encode("utf-8")` and `bytes.decode("utf-8")`, both strict: `none` is the `UnicodeError`.
use mathlib.Core.List.{[], ◌∷◌, ◌++◌}
use mathlib.Core.Path.{◌≡◌, refl, ◌∙◌, ap, subst}
use mathlib.Core.Bool.{Bool, false, not, ◌&&◌}
use mathlib.Core.Option.{Option, none, some, some-injective}
use mathlib.Core.Logic.{inl, inr}
use native.Mathlib.Omega.{arith}
use Prim.Native.Nat.{ℕ, zero, suc, ◌+◌, ◌-◌, ◌*◌, ◌/◌, ◌%◌, ◌≤◌, ◌<◌}
use kid_pc_monitor.Base.Tests.{leb, ltb, Bool-cases, if◌then◌else◌}
use kid_pc_monitor.Base.Lists.{All}
use kid_pc_monitor.Base.Text.{Text, Bytes}

abbrev pub is_surrogate : ℕ → Bool
is_surrogate c = leb 0xD800 c && leb c 0xDFFF

abbrev tail_byte : ℕ → ℕ
tail_byte c = 128 + c % 64

unfoldable pub encode_char : ℕ → Option Bytes
encode_char c =
    if ltb c 128
    then some (c ∷ [])
    else if ltb c 2048
    then some ((192 + c / 64) ∷ tail_byte c ∷ [])
    else if is_surrogate c
    then none
    else if ltb c 65536
    then some ((224 + c / 4096) ∷ tail_byte (c / 64) ∷ tail_byte c ∷ [])
    else some ((240 + c / 262144) ∷ tail_byte (c / 4096) ∷ tail_byte (c / 64) ∷ tail_byte c ∷ [])

abbrev join_bytes : Option Bytes → Option Bytes → Option Bytes
join_bytes none b = none
join_bytes (some a) none = none
join_bytes (some a) (some b) = some (a ++ b)

unfoldable pub encode : Text → Option Bytes
unfolding encode_char
encode [] = some []
encode (c ∷ s) = join_bytes (encode_char c) (encode s)

abbrev pub prepend : ℕ → Option Text → Option Text
prepend c none = none
prepend c (some s) = some (c ∷ s)

-- `need` bytes of a character are still to come, `acc` is what came, `low` the least code point that
-- takes so many bytes.
unfoldable pub decode_from : ℕ → ℕ → ℕ → Bytes → Option Text
decode_from zero acc low [] = some []
decode_from (suc need) acc low [] = none
decode_from zero acc low (b ∷ s) =
    let one = prepend b (decode_from 0 0 0 s) in
    let two = decode_from 1 (b - 192) 128 s in
    let three = decode_from 2 (b - 224) 2048 s in
    let four = decode_from 3 (b - 240) 65536 s in
    if ltb b 128
    then one
    else if ltb b 194
    then none
    else if ltb b 224
    then two
    else if ltb b 240
    then three
    else if ltb b 245
    then four
    else none
decode_from (suc need) acc low (b ∷ s) =
    let c = acc * 64 + (b - 128) in
    let done = prepend c (decode_from 0 0 0 s) in
    let more = decode_from need c low s in
    if leb 128 b && leb b 191
    then elim need [
      | zero ↦ (if leb low c && not (is_surrogate c) && leb c 0x10FFFF then done else none)
      | suc k ↦ more
    ]
    else none

unfoldable pub decode : Bytes → Option Text
unfolding decode_from
decode b = decode_from 0 0 0 b

-- The steps of a four-byte character.
lead_four :
    (b : ℕ) (s : Bytes) → 240 ≤ b → b < 245 → decode (b ∷ s) ≡ decode_from 3 (b - 240) 65536 s
unfolding decode
lead_four b s l h = ground arith

tail_more :
    (k acc b : ℕ) (s : Bytes)
    → 128 ≤ b
    → b ≤ 191
    → decode_from (suc (suc k)) acc 65536 (b ∷ s)
      ≡ decode_from (suc k) (acc * 64 + (b - 128)) 65536 s
unfolding decode_from
tail_more k acc b s l h = ground arith

tail_last :
    (acc b c : ℕ) (s : Bytes)
    → 128 ≤ b
    → b ≤ 191
    → acc * 64 + (b - 128) ≡ c
    → 65536 ≤ c
    → c ≤ 0x10FFFF
    → decode_from 1 acc 65536 (b ∷ s) ≡ prepend c (decode s)
unfolding decode
tail_last acc b c s l h e p q = ground arith

-- A character that was encoded is decoded, whatever follows.
module _ (c : ℕ) (rest : Bytes) where
  one_byte : c < 128 → decode (c ∷ rest) ≡ prepend c (decode rest)
  unfolding decode
  one_byte h = ground arith

  two_bytes :
      128 ≤ c → c < 2048 → decode ((192 + c / 64) ∷ tail_byte c ∷ rest) ≡ prepend c (decode rest)
  unfolding decode
  two_bytes l h = ground arith

  three_bytes :
      2048 ≤ c
      → c < 65536
      → is_surrogate c ≡ false
      → decode ((224 + c / 4096) ∷ tail_byte (c / 64) ∷ tail_byte c ∷ rest)
        ≡ prepend c (decode rest)
  unfolding decode
  three_bytes l h s = ground arith

  four_bytes :
      65536 ≤ c
      → c ≤ 0x10FFFF
      → decode ((240 + c / 262144) ∷ tail_byte (c / 4096) ∷ tail_byte (c / 64) ∷ tail_byte c ∷ rest)
        ≡ prepend c (decode rest)
  four_bytes l h =
      lead_four (240 + c / 262144) (tail_byte (c / 4096) ∷ tail_byte (c / 64) ∷ tail_byte c ∷ rest)
        (omega arith) (omega arith)
      ∙ (tail_more 1 (240 + c / 262144 - 240) (tail_byte (c / 4096))
            (tail_byte (c / 64) ∷ tail_byte c ∷ rest) (omega arith) (omega arith)
          ∙ (tail_more 0 ((240 + c / 262144 - 240) * 64 + (tail_byte (c / 4096) - 128))
                (tail_byte (c / 64)) (tail_byte c ∷ rest) (omega arith) (omega arith)
              ∙ tail_last
                  (((240 + c / 262144 - 240) * 64 + (tail_byte (c / 4096) - 128)) * 64
                    + (tail_byte (c / 64) - 128))
                  (tail_byte c) c rest (omega arith) (omega arith) (omega arith) l h))

decode-encode_char :
    (c : ℕ) (b rest : Bytes)
    → c ≤ 0x10FFFF
    → encode_char c ≡ some b
    → decode (b ++ rest) ≡ prepend c (decode rest)
unfolding encode_char
decode-encode_char c b rest h e = elim (Bool-cases (ltb c 128)) [
  | inl t ↦ let q : b ≡ c ∷ [] = ground arith in rw q (one_byte c rest (ground arith))
  | inr t ↦ elim (Bool-cases (ltb c 2048)) [
    | inl u ↦
        let q : b ≡ (192 + c / 64) ∷ tail_byte c ∷ [] = ground arith in
        rw q (two_bytes c rest (ground arith) (ground arith))
    | inr u ↦ elim (Bool-cases (ltb c 65536)) [
      | inl v ↦
          let sur : is_surrogate c ≡ false = ground arith in
          let q : b ≡ (224 + c / 4096) ∷ tail_byte (c / 64) ∷ tail_byte c ∷ [] = ground arith in
          rw q (three_bytes c rest (ground arith) (ground arith) sur)
      | inr v ↦
          let q : b
              ≡ (240 + c / 262144) ∷ tail_byte (c / 4096) ∷ tail_byte (c / 64) ∷ tail_byte c ∷ [] =
            ground arith in
          rw q (four_bytes c rest (ground arith) h)
    ]
  ]
]

-- Every code point of the text exists.
abbrev pub IsUnicode : Text → Type 0
IsUnicode s = All (λ c. c ≤ 0x10FFFF) s

-- Decoding the encoded text gives it back.
pub decode-encode : (s : Text) (b : Bytes) → IsUnicode s → encode s ≡ some b → decode b ≡ some s
unfolding encode
decode-encode [] b u e =
    subst (λ x. decode x ≡ some []) (some-injective _ _ e) (unfold decode in refl)
decode-encode (c ∷ s) b u e = joined (encode_char c) (encode s) refl refl (decode-encode s) e
  where
    joined :
        (m o : Option Bytes)
        → encode_char c ≡ m
        → encode s ≡ o
        → ((y : Bytes) → IsUnicode s → encode s ≡ some y → decode y ≡ some s)
        → join_bytes m o ≡ some b
        → decode b ≡ some (c ∷ s)
    joined none o p q ih r = cc
    joined (some x) none p q ih r = cc
    joined (some x) (some y) p q ih r =
        subst (λ z. decode z ≡ some (c ∷ s)) (some-injective _ _ r)
          (decode-encode_char c x y u.0 p ∙ ap (prepend c) (ih y u.1 q))
