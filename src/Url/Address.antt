-- ===== src/Url/Address.antt =====
-- webcc/url.h and url.cc: `Url`, its parts, and how a string is taken apart.
pub mod Render
pub mod Pitfalls
use devops_workshop.Boost.{Boost}
use devops_workshop.Url.Codec.{decode}
use devops_workshop.Prelude.{
  zero, suc, Bool, true, false, not, ◌||◌, Option, none, some, [], ◌∷◌, ◌++◌, if◌then◌else◌,
}
use devops_workshop.Bytes.{Text, codes, equal, cut, cut_on, strip}

pub record Url : Type 0 where
  pub scheme : Text
  pub host : Text
  pub port : Text
  pub path : Text
  pub query : Text

-- a `Url` as constructed, and after `Clear`
abbrev pub blank : Url
blank = record { scheme = []; host = []; port = []; path = []; query = [] }

-- the part of `Parse` that looks for "://"
abbrev pub take_scheme : Option (Text × Text) → Text → Url → Url × Text
take_scheme none tmp url = (url, tmp)
take_scheme (some (scheme, rest)) tmp url = (record url { scheme = scheme }, rest)

abbrev pub take_path : Option (Text × Text) → Text → Url → Url
take_path none tmp url = record url { path = tmp }
take_path (some (path, query)) tmp url = record url { path = path; query = query }

abbrev pub take_bare_host : Option (Text × Text) → Text → Url → Url
take_bare_host none tmp url = record url { path = []; host = tmp }
take_bare_host (some (host, query)) tmp url = record url { path = []; host = host; query = query }

-- the branch on the first '/'
abbrev pub take_host : Option (Text × Text) → Text → Url → Url
take_host none tmp url = take_bare_host (cut b'?' tmp) tmp url
take_host (some (host, rest)) tmp url = take_path (cut b'?' rest) rest (record url { host = host })

-- the part on ':' in the host; an empty host holds none
abbrev pub take_port : Option (Text × Text) → Url → Url
take_port none url = url
take_port (some (host, port)) url = record url { port = port; host = host }

abbrev pub split_port : Url → Url
split_port url = take_port (cut b':' url.host) url

-- the rest of `Parse`, behind the scheme
abbrev pub take_rest : Url × Text → Url
take_rest (url, rest) = split_port (take_host (cut b'/' rest) rest url)

module _ (boost : Boost) where
  -- `Parse`
  unfoldable pub parse : Text → Url → Url
  unfolding cut cut_on
  parse str url =
      let tmp = boost.trim_left str in take_rest (take_scheme (cut_on (codes "://") tmp) tmp url)

  abbrev pub parse_decoded : Option Text → Text → Url → Url
  parse_decoded none str url = parse str url
  parse_decoded (some decoded) str url = parse decoded url

  abbrev has_percent : Option (Text × Text) → Bool
  has_percent none = false
  has_percent (some _) = true

  -- `Init`, with its two flags
  unfoldable pub init : Text → Bool → Bool → Url → Url
  unfolding parse
  init str decodes clear url =
      let start = if clear then blank else url in
      if not decodes || not (has_percent (cut b'%' str))
      then parse str start
      else parse_decoded (decode str) str start

-- `AddQuery`
unfoldable pub add_query : Text → Text → Url → Url
add_query key value url =
    let before = if equal url.query [] then [] else url.query ++ b'&' ∷ [] in
    record url { query = before ++ (key ++ b'=' ∷ value) }
