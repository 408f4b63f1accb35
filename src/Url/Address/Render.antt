-- ===== src/Url/Address/Render.antt =====
-- webcc/url.cc: `Parse` reads back what is written in the form scheme://host:port/path?query, and
-- the target of a request line.
use devops_workshop.Boost.{Boost, IsSolid}
use devops_workshop.Url.Address.{Url, blank, take_path, split_port, take_rest, parse}
use devops_workshop.Prelude.{
  ◌≡◌, ◌≢◌, refl, ap, ◌∙◌, none, [], ◌∷◌, ◌++◌, append-nil, arith, All, All-append,
}
use devops_workshop.Bytes.{Text, codes, Lacks, cut, cut_on, cut_lem, cut-none, cut_on_lem}

abbrev pub query_text : Text → Text
query_text [] = []
query_text (c ∷ q) = b'?' ∷ c ∷ q

abbrev pub port_text : Text → Text
port_text [] = []
port_text (c ∷ p) = b':' ∷ c ∷ p

abbrev pub target : Text → Text → Text
target path query = b'/' ∷ (path ++ query_text query)

abbrev pub absolute : Url → Text
absolute u =
    u.scheme ++ b':' ∷ (codes "//" ++ ((u.host ++ port_text u.port) ++ target u.path u.query))

-- The parts of an absolute URL are free of the separators that end them.
pub record IsRenderable (u : Url) : Type 0 where
  pub scheme_ne : u.scheme ≢ []
  pub scheme_solid : All IsSolid u.scheme
  pub scheme_colon : Lacks b':' u.scheme
  pub host_slash : Lacks b'/' u.host
  pub host_colon : Lacks b':' u.host
  pub port_slash : Lacks b'/' u.port
  pub path_question : Lacks b'?' u.path

trim_left-solid :
    (boost : Boost) (s t : Text) → s ≢ [] → All IsSolid s → boost.trim_left (s ++ t) ≡ s ++ t
trim_left-solid boost [] t n h = absurd (n refl)
trim_left-solid boost (c ∷ s) t n h = boost.trim_left_solid c (s ++ t) h.0

take_path_lem :
    (path query : Text) (url : Url)
    → Lacks b'?' path
    → url.query ≡ []
    → take_path (cut b'?' (path ++ query_text query)) (path ++ query_text query) url
      ≡ record url { path = path; query = query }
take_path_lem path [] url h e =
    rw append-nil (rw (cut-none b'?' path h) (λ i. record url { path = path; query = e i }))
take_path_lem path (c ∷ q) url h e = rw (cut_lem b'?' path (c ∷ q) h)

Lacks-port_text : (port : Text) → Lacks b'/' port → Lacks b'/' (port_text port)
Lacks-port_text [] h = tt
Lacks-port_text (c ∷ p) h = ((λ e. absurd (omega arith)), h)

split_port_lem :
    (host port : Text) (url : Url)
    → Lacks b':' host
    → split_port (record url { host = host ++ port_text port; port = [] })
      ≡ record url { host = host; port = port }
split_port_lem host [] url h = rw (append-nil, cut-none b':' host h)
split_port_lem host (c ∷ q) url h = rw (cut_lem b':' host (c ∷ q) h)

take_rest_lem :
    (u : Url)
    → IsRenderable u
    → take_rest
        (record blank { scheme = u.scheme }, (u.host ++ port_text u.port) ++ target u.path u.query)
      ≡ u
take_rest_lem u r =
    ap split_port (
      rw
        (cut_lem b'/' (u.host ++ port_text u.port) (u.path ++ query_text u.query) (
          All-append (λ x. x ≢ b'/') u.host (port_text u.port) r.host_slash
            (Lacks-port_text u.port r.port_slash)))
        (take_path_lem u.path u.query
          (record blank { scheme = u.scheme; host = u.host ++ port_text u.port }) r.path_question
          refl))
    ∙ split_port_lem u.host u.port u r.host_colon

-- An absolute URL is parsed into its parts, with or without a port and a query. Its scheme is not
-- empty and holds no space and no colon, its host no slash and no colon, its port no slash, and its
-- path no question mark.
pub parse-absolute : (boost : Boost) (u : Url) → IsRenderable u → parse boost (absolute u) blank ≡ u
unfolding parse
parse-absolute boost u r = rw (trim_left-solid boost u.scheme _ r.scheme_ne r.scheme_solid) (
    rw
      (cut_on_lem b':' (codes "//") u.scheme ((u.host ++ port_text u.port) ++ target u.path u.query)
        r.scheme_colon)
      (take_rest_lem u r))

-- A request target in origin form gives its path and its query, and no host, if the path holds no
-- question mark and "://" stands nowhere in the target.
pub parse-target :
    (boost : Boost) (path query : Text)
    → Lacks b'?' path
    → cut_on (codes "://") (target path query) ≡ none
    → parse boost (target path query) blank ≡ record blank { path = path; query = query }
unfolding parse
parse-target boost path query h n =
    rw (boost.trim_left_solid b'/' (path ++ query_text query) refl)
      (rw n (ap split_port (take_path_lem path query blank h refl)))
