-- ===== src/Url/Codec/RoundTrip.antt =====
-- url.cc: `Decode` undoes `EncodeImpl`.
use mathlib.Core.Option
use devops_workshop.Prelude.Tables.{table, table_sound}
use devops_workshop.Url.Codec.{
  hex_to_decimal, decode, hex_digit, encode_impl, encodes_in_query, encode_query,
}
use devops_workshop.Prelude.{
  ℕ, ◌+◌, ◌*◌, ◌/◌, ◌%◌, ◌^◌, ◌≤◌, ◌<◌, ◌≡◌, ◌≢◌, inl, inr, refl, ap, Bool, true, false, Option,
  none, some, [], ◌∷◌, arith, ◌==◌, Bool-cases, All,
}
use devops_workshop.Bytes.{Text, IsByte}

-- A byte that is no percent sign, and is ASCII, stands for itself.
decode-cons :
    (c : ℕ) (s : Text)
    → c ≢ b'%'
    → c < 128
    → decode (c ∷ s) ≡ Option.map (λ raw. c ∷ raw) (decode s)
unfolding decode
decode-cons c [] n a = ground arith
decode-cons c (h ∷ []) n a = ground arith
decode-cons c (h ∷ l ∷ s) n a = ground arith

abbrev denotes : ℕ → Option ℕ → Bool
denotes n none = false
denotes n (some m) = m == n

denotes_lem : (n : ℕ) (o : Option ℕ) → denotes n o ≡ true → o ≡ some n
denotes_lem n none h = cc
denotes_lem n (some m) h = ground arith

digit_table : table (λ n. denotes n (hex_to_decimal (hex_digit n))) 16 ≡ true
unfolding table hex_to_decimal hex_digit
digit_table = refl

digit_denotes : (n : ℕ) → n < 16 → denotes n (hex_to_decimal (hex_digit n)) ≡ true
digit_denotes n h = table_sound _ 16 n h digit_table

hex_to_decimal-hex_digit : (n : ℕ) → n < 16 → hex_to_decimal (hex_digit n) ≡ some n
hex_to_decimal-hex_digit n h = denotes_lem n (hex_to_decimal (hex_digit n)) (digit_denotes n h)

-- An escape that the encoder writes stands for the byte that it was written for.
decode-escape :
    (c : ℕ) (s : Text)
    → c < 256
    → decode (b'%' ∷ hex_digit (c / 2 ^ 4 % 16) ∷ hex_digit (c % 16) ∷ s)
      ≡ Option.map (λ raw. c ∷ raw) (decode s)
unfolding decode
decode-escape c s h =
    rw (hex_to_decimal-hex_digit (c / 2 ^ 4 % 16) (omega arith))
      (rw (hex_to_decimal-hex_digit (c % 16) (omega arith)) (rw (whole) refl))
  where
    whole : (c / 2 ^ 4 % 16 * 16 + c % 16) % 256 ≡ c
    whole = omega arith

-- The predicate of an encoder whose output `decode` can read.
pub record IsEscaping (should_encode : ℕ → Bool) : Type 0 where
  pub percent : should_encode b'%' ≡ true
  pub high : (c : ℕ) → 128 ≤ c → should_encode c ≡ true

kept-lt :
    {should_encode : ℕ → Bool} (c : ℕ)
    → IsEscaping should_encode
    → should_encode c ≡ false
    → c < 128
kept-lt c e kept = ground (arith, e.high c)

-- Decoding undoes encoding, for every text of bytes and every predicate that escapes the percent
-- sign and all bytes from 128 on.
pub decode-encode_impl :
    {should_encode : ℕ → Bool} (raw : Text)
    → IsEscaping should_encode
    → All IsByte raw
    → decode (encode_impl should_encode raw) ≡ some raw
unfolding encode_impl
decode-encode_impl [] e b = unfold decode in refl
decode-encode_impl {should_encode} (c ∷ raw) e b = elim (Bool-cases (should_encode c)) [
  | inl escaped ↦ rw escaped (rw (decode-escape c _ b.0, decode-encode_impl raw e b.1))
  | inr kept ↦ rw kept (
      rw (
        decode-cons c (encode_impl should_encode raw) (λ q. cc (e.percent, ap should_encode q))
            (kept-lt c e kept),
        decode-encode_impl raw e b.1,
      ))
]

encodes_in_query-IsEscaping : IsEscaping encodes_in_query
unfolding encodes_in_query
encodes_in_query-IsEscaping = record { percent = refl; high = λ c h. ground arith }

-- Decoding undoes `EncodeQuery` on every text of bytes.
pub decode-encode_query : (raw : Text) → All IsByte raw → decode (encode_query raw) ≡ some raw
unfolding encode_query
decode-encode_query raw b = decode-encode_impl raw encodes_in_query-IsEscaping b
