-- ===== src/Examples/Url.antt =====
-- webcc/url.cc at concrete texts.
use mathlib.Core.Option
use devops_workshop.Prelude.{◌≡◌, refl, some, [], ◌∷◌, ◌++◌}
use devops_workshop.Bytes.{Text, codes, equal, cut_on, strip}
use devops_workshop.Boost.{all_solid_sound}
use devops_workshop.Url.Codec.{encode_query, decode}
use devops_workshop.Url.Codec.RoundTrip.{decode-encode_query}
use devops_workshop.Url.Query.{Parameters, find, has, parse, to_string}
use devops_workshop.Url.Query.Keys.{NodupKeys}
use devops_workshop.Url.Query.RoundTrip.{IsWritable, parse-decode-to_string}
use devops_workshop.Url.Address.{Url, blank}
use devops_workshop.Url.Address as Address
use devops_workshop.Url.Address.Render.{absolute, IsRenderable, parse-absolute}
use devops_workshop.Url.Address.Pitfalls.{nested, parse-nested}
use devops_workshop.Examples.AsciiBoost.{ascii_boost, trim_left}
use devops_workshop.Examples.Decide.{all_bytes_sound}
use devops_workshop.Bytes.{lacks_sound}

abbrev unsafe_text : Text
unsafe_text = codes "a b&c=%41" ++ 255 ∷ []

decode-encode_query_example : decode (encode_query unsafe_text) ≡ some unsafe_text
decode-encode_query_example = decode-encode_query unsafe_text (all_bytes_sound unsafe_text refl)

abbrev two_parameters : Parameters
two_parameters = (codes "id", codes "a b=c") ∷ (codes "size", []) ∷ []

id-IsWritable : IsWritable (codes "id", codes "a b=c")
id-IsWritable = record {
  key_ne = λ e. cc;
  key_eq = lacks_sound b'=' (codes "id") refl;
  key_amp = lacks_sound b'&' (codes "id") refl;
  value_amp = lacks_sound b'&' (codes "a b=c") refl;
  key_bytes = all_bytes_sound (codes "id") refl;
  value_bytes = all_bytes_sound (codes "a b=c") refl;
}

size-IsWritable : IsWritable (codes "size", [])
size-IsWritable = record {
  key_ne = λ e. cc;
  key_eq = lacks_sound b'=' (codes "size") refl;
  key_amp = lacks_sound b'&' (codes "size") refl;
  value_amp = tt;
  key_bytes = all_bytes_sound (codes "size") refl;
  value_bytes = tt;
}

two_parameters-NodupKeys : NodupKeys two_parameters
unfolding has find equal
two_parameters-NodupKeys = (refl, (refl, tt))

parse-decode-to_string_example :
    Option.map parse (decode (to_string two_parameters)) ≡ some two_parameters
parse-decode-to_string_example =
    parse-decode-to_string two_parameters (id-IsWritable, (size-IsWritable, tt))
      two_parameters-NodupKeys

abbrev service_url : Url
service_url = record blank {
  scheme = codes "http";
  host = codes "localhost";
  port = codes "8080";
  path = codes "images";
  query = codes "id=1";
}

service_url-IsRenderable : IsRenderable service_url
service_url-IsRenderable = record {
  scheme_ne = λ e. cc;
  scheme_solid = all_solid_sound (codes "http") refl;
  scheme_colon = lacks_sound b':' (codes "http") refl;
  host_slash = lacks_sound b'/' (codes "localhost") refl;
  host_colon = lacks_sound b':' (codes "localhost") refl;
  port_slash = lacks_sound b'/' (codes "8080") refl;
  path_question = lacks_sound b'?' (codes "images") refl;
}

parse-absolute_example : Address.parse ascii_boost (absolute service_url) blank ≡ service_url
parse-absolute_example = parse-absolute ascii_boost service_url service_url-IsRenderable

parse-nested_example :
    Address.parse ascii_boost (nested (codes "images") (codes "from=http") (codes "host/a")) blank
    ≡ record (Address.parse ascii_boost (codes "host/a") blank) {
      scheme = b'/' ∷ (codes "images" ++ b'?' ∷ codes "from=http");
    }
unfolding cut_on strip trim_left
parse-nested_example =
    parse-nested ascii_boost (codes "images") (codes "from=http") (codes "host/a")
      (lacks_sound b':' (codes "images") refl) (lacks_sound b':' (codes "from=http") refl) refl refl
