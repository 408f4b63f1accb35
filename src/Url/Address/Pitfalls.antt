-- ===== src/Url/Address/Pitfalls.antt =====
-- webcc/url.cc: `Parse` looks for "://" in the whole string, the query included.
use devops_workshop.Boost.{Boost}
use devops_workshop.Url.Address.{
  Url, blank, take_path, take_bare_host, take_host, take_port, split_port, take_rest, parse,
}
use devops_workshop.Prelude.{
  ◌≡◌, ◌≢◌, refl, ap, ◌∙◌, Option, none, some, ◌∷◌, ◌++◌, arith, All-append,
}
use devops_workshop.Bytes.{Text, codes, Lacks, cut, cut_on, cut_on_lem}

-- The target of a request whose query holds a URL, as in /images?next=http://host/.
abbrev pub nested : Text → Text → Text → Text
nested path query rest = (b'/' ∷ (path ++ b'?' ∷ query)) ++ b':' ∷ (codes "//" ++ rest)

take_path-scheme :
    (o : Option (Text × Text)) (t s : Text) (url : Url)
    → take_path o t (record url { scheme = s }) ≡ record (take_path o t url) { scheme = s }
take_path-scheme none t s url = refl
take_path-scheme (some p) t s url = refl

take_bare_host-scheme :
    (o : Option (Text × Text)) (t s : Text) (url : Url)
    → take_bare_host o t (record url { scheme = s })
      ≡ record (take_bare_host o t url) { scheme = s }
take_bare_host-scheme none t s url = refl
take_bare_host-scheme (some p) t s url = refl

take_host-scheme :
    (o : Option (Text × Text)) (t s : Text) (url : Url)
    → take_host o t (record url { scheme = s }) ≡ record (take_host o t url) { scheme = s }
take_host-scheme none t s url = take_bare_host-scheme (cut b'?' t) t s url
take_host-scheme (some (h, r)) t s url = take_path-scheme (cut b'?' r) r s (record url { host = h })

take_port-scheme :
    (o : Option (Text × Text)) (s : Text) (url : Url)
    → take_port o (record url { scheme = s }) ≡ record (take_port o url) { scheme = s }
take_port-scheme none s url = refl
take_port-scheme (some p) s url = refl

take_rest-scheme :
    (s rest : Text) (url : Url)
    → take_rest (record url { scheme = s }, rest) ≡ record (take_rest (url, rest)) { scheme = s }
take_rest-scheme s rest url =
    ap split_port (take_host-scheme (cut b'/' rest) rest s url)
    ∙ take_port-scheme (cut b':' (take_host (cut b'/' rest) rest url).host) s
        (take_host (cut b'/' rest) rest url)

-- If "://" stands in the query of a target, with no colon before it, then all before it is taken for
-- the scheme, and host, port, path and query are those of the text behind it, if that does not begin
-- with a space and holds no other "://".
pub parse-nested :
    (boost : Boost) (path query rest : Text)
    → Lacks b':' path
    → Lacks b':' query
    → boost.trim_left rest ≡ rest
    → cut_on (codes "://") rest ≡ none
    → parse boost (nested path query rest) blank
      ≡ record (parse boost rest blank) { scheme = b'/' ∷ (path ++ b'?' ∷ query) }
unfolding parse
parse-nested boost path query rest p q t n =
    rw (boost.trim_left_solid b'/' ((path ++ b'?' ∷ query) ++ b':' ∷ (codes "//" ++ rest)) refl) (
      rw (cut_on_lem b':' (codes "//") (b'/' ∷ (path ++ b'?' ∷ query)) rest lacks)
        (take_rest-scheme (b'/' ∷ (path ++ b'?' ∷ query)) rest blank ∙ rw (t, n)))
  where
    lacks : Lacks b':' (b'/' ∷ (path ++ b'?' ∷ query))
    lacks = (
      (λ e. absurd (omega arith)),
      All-append (λ x. x ≢ b':') path (b'?' ∷ query) p ((λ e. absurd (omega arith)), q),
    )
