-- ===== src/Url/Codec.antt =====
-- url.cc, the helpers that decode and encode a URL string. A `char` is a byte, 0 to 255: on the
-- platform of the build `char` is signed, so `*iter > 127 || *iter < 0` is "at least 128".
pub mod RoundTrip
pub mod Alphabet
use mathlib.Core.Option
use devops_workshop.Prelude.{
  ℕ, zero, suc, ◌+◌, ◌-◌, ◌*◌, ◌/◌, ◌%◌, ◌^◌, ◌≡◌, refl, Bool, true, false, not, ◌&&◌, ◌||◌, Option,
  none, some, [], ◌∷◌, map, leb, ◌==◌, if◌then◌else◌, get_or,
}
use devops_workshop.Bytes.{Text, codes, equal, cut, strip}

-- `HexToDecimal`: the digit's value, or `none` for `false`.
unfoldable pub hex_to_decimal : ℕ → Option ℕ
hex_to_decimal hex =
    if leb b'0' hex && leb hex b'9'
    then some (hex - b'0')
    else if leb b'A' hex && leb hex b'F'
    then some (10 + (hex - b'A'))
    else if leb b'a' hex && leb hex b'f'
    then some (10 + (hex - b'a'))
    else none

abbrev escaped_char : Option ℕ → Option ℕ → Option Text → Option Text
escaped_char (some h) (some l) rest = Option.map (λ raw. ((h * 16 + l) % 256) ∷ raw) rest
escaped_char _ _ rest = none

abbrev plain_char : ℕ → Option Text → Option Text
plain_char c rest = if leb 128 c then none else Option.map (λ raw. c ∷ raw) rest

-- `Decode`: `none` for `false`. What a failed call leaves in `raw` is never read.
unfoldable pub decode : Text → Option Text
unfolding hex_to_decimal
decode [] = some []
decode (c ∷ []) = if c == b'%' then none else plain_char c (some [])
decode (c ∷ h ∷ []) =
    let plain = plain_char c (decode (h ∷ [])) in if c == b'%' then none else plain
decode (c ∷ h ∷ l ∷ s) =
    let escape = escaped_char (hex_to_decimal h) (hex_to_decimal l) (decode s) in
    let plain = plain_char c (decode (h ∷ l ∷ s)) in if c == b'%' then escape else plain

-- `hex[n]`
unfoldable pub hex_digit : ℕ → ℕ
hex_digit n = get_or (codes "0123456789ABCDEF") n 0

-- `EncodeImpl`
unfoldable pub encode_impl : (ℕ → Bool) → Text → Text
unfolding hex_digit
encode_impl should_encode [] = []
encode_impl should_encode (ch ∷ raw) =
    let rest = encode_impl should_encode raw in
    if should_encode ch
    then b'%' ∷ hex_digit (ch / 2 ^ 4 % 16) ∷ hex_digit (ch % 16) ∷ rest
    else ch ∷ rest

unfoldable pub is_alpha_numeric : ℕ → Bool
is_alpha_numeric c =
    (leb b'0' c && leb c b'9') || (leb b'A' c && leb c b'Z') || (leb b'a' c && leb c b'z')

unfoldable pub is_unreserved : ℕ → Bool
unfolding is_alpha_numeric
is_unreserved c = is_alpha_numeric c || c == b'-' || c == b'.' || c == b'_' || c == b'~'

unfoldable pub sub_delimiter : ℕ → Bool
sub_delimiter c =
    c == b'!'
    || c == b'$'
    || c == b'&'
    || c == 39
    || c == b'('
    || c == b')'
    || c == b'*'
    || c == b'+'
    || c == b','
    || c == b';'
    || c == b'='

unfoldable pub is_path_char : ℕ → Bool
unfolding is_unreserved sub_delimiter
is_path_char c =
    is_unreserved c || sub_delimiter c || c == b'%' || c == b'/' || c == b':' || c == b'@'

unfoldable pub is_query_char : ℕ → Bool
unfolding is_path_char
is_query_char c = is_path_char c || c == b'?'

-- the λ of `EncodeQuery`
unfoldable pub encodes_in_query : ℕ → Bool
unfolding is_query_char
encodes_in_query c = not (is_query_char c) || c == b'%' || c == b'+'

-- `EncodeQuery`
unfoldable pub encode_query : Text → Text
unfolding encode_impl encodes_in_query
encode_query = encode_impl encodes_in_query

encode_query_test : encode_query (codes "a b=1%&c+") ≡ codes "a%20b=1%25&c%2B"
unfolding encode_query
encode_query_test = refl

decode_test : decode (codes "a%20b%2f") ≡ some (codes "a b/")
unfolding decode
decode_test = refl
