-- ===== src/Url/Query.antt =====
-- webcc/url.cc: `UrlQuery`, the parameters of a query string, each key once.
pub mod Keys
pub mod RoundTrip
use devops_workshop.Url.Codec.{encode_query}
use devops_workshop.Prelude.{
  zero, suc, ◌≡◌, refl, Bool, true, false, Option, none, some, List, [], ◌∷◌, ◌++◌, ◌==◌,
  if◌then◌else◌,
}
use devops_workshop.Bytes.{Text, codes, equal, cut, strip}

abbrev pub Parameter : Type 0
Parameter = Text × Text

abbrev pub Parameters : Type 0
Parameters = List Parameter

-- `Find`, with the value found
unfoldable pub find : Text → Parameters → Option Text
find key [] = none
find key ((k, v) ∷ ps) = if equal k key then some v else find key ps

abbrev pub is_some : Option Text → Bool
is_some none = false
is_some (some _) = true

-- `Has`
unfoldable pub has : Text → Parameters → Bool
unfolding find
has key ps = is_some (find key ps)

abbrev pub or_empty : Option Text → Text
or_empty none = []
or_empty (some v) = v

-- `Get`: the empty string for a missing key
unfoldable pub get : Text → Parameters → Text
unfolding find
get key ps = or_empty (find key ps)

-- `Add`, both overloads
unfoldable pub add : Text → Text → Parameters → Parameters
add key value ps = if has key ps then ps else ps ++ (key, value) ∷ []

-- `Remove`
unfoldable pub remove : Text → Parameters → Parameters
remove key [] = []
remove key ((k, v) ∷ ps) = if equal k key then ps else (k, v) ∷ remove key ps

-- `i == npos || i == 0`
abbrev pub with_key : Option Parameter → Option Parameter
with_key none = none
with_key (some ([], value)) = none
with_key (some (c ∷ k, value)) = some (c ∷ k, value)

-- `SplitKeyValue`: `none` for `false`
unfoldable pub split_key_value : Text → Option Parameter
split_key_value kv = with_key (cut b'=' kv)

abbrev pub add_if_split : Option Parameter → Parameters → Parameters
add_if_split none ps = ps
add_if_split (some (key, value)) ps = add key value ps

-- the body of the constructor's loop
unfoldable pub add_pair : Text → Parameters → Parameters
unfolding split_key_value
add_pair kv ps = add_if_split (split_key_value kv) ps

-- The loop of the constructor: `kv` is what has been read since the last separator.
unfoldable pub parse_loop : Text → Text → Parameters → Parameters
parse_loop kv [] ps = add_pair kv ps
parse_loop kv (c ∷ str) ps =
    let next = parse_loop [] str (add_pair kv ps) in
    let longer = parse_loop (kv ++ c ∷ []) str ps in if c == b'&' then next else longer

-- `UrlQuery::UrlQuery`
unfoldable pub parse : Text → Parameters
unfolding parse_loop
parse [] = []
parse (c ∷ str) = parse_loop [] (c ∷ str) []

abbrev pub pair_text : Parameter → Text
pair_text p = p.0 ++ b'=' ∷ p.1

unfoldable pub join_onto : Text → Parameters → Text
join_onto str [] = str
join_onto str (p ∷ ps) = join_onto (str ++ b'&' ∷ pair_text p) ps

-- the string of `ToString` before it is encoded
unfoldable pub join : Parameters → Text
unfolding join_onto
join [] = []
join (p ∷ ps) = join_onto (pair_text p) ps

-- `ToString`
unfoldable pub to_string : Parameters → Text
unfolding join
to_string ps = encode_query (join ps)

parse_test :
    parse (codes "a=1&&b=2&a=3&=4&c") ≡ (codes "a", codes "1") ∷ (codes "b", codes "2") ∷ []
unfolding parse add_pair add has equal cut
parse_test = refl
