-- ===== src/Url/Codec/Alphabet.antt =====
-- url.cc: what `EncodeQuery` writes.
use devops_workshop.Prelude.Tables.{table, table_sound}
use devops_workshop.Url.Codec.{hex_digit, is_query_char, encodes_in_query, encode_query}
use devops_workshop.Prelude.{
  ℕ, ◌/◌, ◌%◌, ◌^◌, ◌<◌, ◌≡◌, inl, inr, refl, true, false, [], ◌∷◌, arith, Bool-cases, All,
}
use devops_workshop.Bytes.{Text}

abbrev pub IsLegal : ℕ → Type 0
IsLegal c = is_query_char c ≡ true

digit_table : table (λ n. is_query_char (hex_digit n)) 16 ≡ true
unfolding table is_query_char hex_digit
digit_table = refl

digit-IsLegal : (n : ℕ) → n < 16 → IsLegal (hex_digit n)
digit-IsLegal n h = table_sound (λ c. is_query_char (hex_digit c)) 16 n h digit_table

kept-IsLegal : (c : ℕ) → encodes_in_query c ≡ false → IsLegal c
unfolding encodes_in_query
kept-IsLegal c h = ground arith

percent-IsLegal : IsLegal b'%'
unfolding is_query_char
percent-IsLegal = refl

-- Every character of an encoded query is legal in the query portion of a URL.
pub encode_query-IsLegal : (raw : Text) → All IsLegal (encode_query raw)
unfolding encode_query
encode_query-IsLegal [] = tt
encode_query-IsLegal (c ∷ raw) = elim (Bool-cases (encodes_in_query c)) [
  | inl escaped ↦ rw escaped (
    percent-IsLegal,
    (
      digit-IsLegal (c / 2 ^ 4 % 16) (omega arith),
      (digit-IsLegal (c % 16) (omega arith), encode_query-IsLegal raw),
    ),
  )
  | inr kept ↦ rw kept (kept-IsLegal c kept, encode_query-IsLegal raw)
]
