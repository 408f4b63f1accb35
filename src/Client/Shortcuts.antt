-- ===== src/Client/Shortcuts.antt =====
-- webcc/client_session.cc: the calls of `ClientSession` that build a request and send it. Each gives the
-- request; sending it is `Request` of the session.
use devops_workshop.Boost.{Boost}
use devops_workshop.Http.Request.{Request}
use devops_workshop.Client.Builder.{Builder, new_builder, query, header, build}
use devops_workshop.Prelude.{Bool, List, ◌∷◌}
use devops_workshop.Bytes.{Text, codes}

-- `SetHeaders`
unfoldable pub put_headers : List Text → Builder → Builder
put_headers (key ∷ value ∷ rest) b = put_headers rest (header key value b)
put_headers rest b = b

-- the loop of `Get` over its parameters
unfoldable pub put_queries : List Text → Builder → Builder
put_queries (key ∷ value ∷ rest) b = put_queries rest (query key value b)
put_queries rest b = b

abbrev of_method : Text → Text → Builder
of_method method url = record new_builder { method = method; url = url }

abbrev with_body : Text → Text → Text → Bool → List Text → Builder
with_body method url content json headers = record (put_headers headers (of_method method url)) {
  data_ = content;
  json = json;
}

module _ (boost : Boost) where
  -- `Get`
  unfoldable pub get : Text → List Text → List Text → Request
  unfolding put_headers put_queries build
  get url parameters headers =
      build boost (put_headers headers (put_queries parameters (of_method (codes "GET") url)))

  -- `Post`
  unfoldable pub post : Text → Text → Bool → List Text → Request
  unfolding put_headers build
  post url content json headers = build boost (with_body (codes "POST") url content json headers)

  -- `Put`
  unfoldable pub put : Text → Text → Bool → List Text → Request
  unfolding put_headers build
  put url content json headers = build boost (with_body (codes "PUT") url content json headers)

  -- `Delete`
  unfoldable pub delete : Text → List Text → Request
  unfolding put_headers build
  delete url headers = build boost (put_headers headers (of_method (codes "DELETE") url))

  -- `Patch`
  unfoldable pub patch : Text → Text → Bool → List Text → Request
  unfolding put_headers build
  patch url content json headers = build boost (with_body (codes "PATCH") url content json headers)
