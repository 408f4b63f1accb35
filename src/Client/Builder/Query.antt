-- ===== src/Client/Builder/Query.antt =====
-- webcc/request_builder.cc: the parameters that a builder puts into the URL, and what the server reads.
use devops_workshop.Boost.{Boost}
use devops_workshop.Url.Address.{Url, blank, init, add_query}
use devops_workshop.Url.Query.{Parameters, parse, join, join_onto, pair_text}
use devops_workshop.Url.Query.Keys.{NodupKeys}
use devops_workshop.Url.Query.RoundTrip.{IsWritable, parse-join}
use devops_workshop.Http.Message.{copy_payload}
use devops_workshop.Http.Request.{Request, prepare_request}
use devops_workshop.Parser.State.{Env, Outcome, ok, reject, throws, spent, of_requests, new_parser}
use devops_workshop.Parser.Feed as Feed
use devops_workshop.Parser.Feed.Expected.{Seen}
use devops_workshop.Parser.Feed.Prepared as Prepared
use devops_workshop.Parser.Feed.WholeContent.{IsRead}
use devops_workshop.Client.Builder.{Builder, add_queries, build}
use devops_workshop.Prelude.{
  ℕ, ◌≡◌, some, refl, ap, ◌∙◌, inl, inr, Bool-cases, true, false, List, [], ◌∷◌, ◌++◌, append_assoc,
  All,
}
use devops_workshop.Bytes.{Text, equal}

-- The strings that calls of `Query` leave.
abbrev pub flat : Parameters → List Text
flat [] = []
flat ((key, value) ∷ ps) = key ∷ value ∷ flat ps

add_queries-onto :
    (ps : Parameters) (c : ℕ) (q : Text) (url : Url)
    → url.query ≡ c ∷ q
    → (add_queries (flat ps) url).query ≡ join_onto (c ∷ q) ps
unfolding add_queries join_onto add_query
add_queries-onto [] c q url e = e
add_queries-onto ((k, v) ∷ ps) c q url e =
    add_queries-onto ps c (q ++ b'&' ∷ pair_text (k, v)) (add_query k v url)
      (unfold equal in rw e (append_assoc (c ∷ q) (b'&' ∷ []) (pair_text (k, v))))

add_queries-join :
    (ps : Parameters) (url : Url) → url.query ≡ [] → (add_queries (flat ps) url).query ≡ join ps
unfolding add_queries join add_query
add_queries-join [] url e = e
add_queries-join (([], v) ∷ ps) url e =
    add_queries-onto ps b'=' v (add_query [] v url) (unfold equal in rw e refl)
add_queries-join ((x ∷ k, v) ∷ ps) url e =
    add_queries-onto ps x (k ++ b'=' ∷ v) (add_query (x ∷ k) v url) (unfold equal in rw e refl)

module _ (boost : Boost) where
  build-query :
      (b : Builder)
      → (build boost b).url.query
        ≡ (add_queries b.parameters (init boost b.url true false blank)).query
  unfolding build
  build-query b = elim (Bool-cases (equal b.data_ [])) [ inl e ↦ rw e refl | inr e ↦ rw e refl ]

  built_query :
      (b : Builder) (ps : Parameters)
      → b.parameters ≡ flat ps
      → (init boost b.url true false blank).query ≡ []
      → (build boost b).url.query ≡ join ps
  built_query b ps e n =
      build-query b
      ∙ ap (λ l. (add_queries l (init boost b.url true false blank)).query) e
      ∙ add_queries-join ps (init boost b.url true false blank) n

module _ (env : Env) where
  -- A complete request with such parameters in its query.
  abbrev pub HasParameters : Parameters → Outcome → Type 0
  HasParameters ps (ok q) = (q.finished ≡ true) × (parse q.request.url.query ≡ ps)
  HasParameters ps _ = ⊥

  IsRead-HasParameters :
      (o : Outcome) (s : Seen) (content : Text) (ps : Parameters)
      → IsRead s content o
      → parse s.1.0.query ≡ ps
      → HasParameters ps o
  IsRead-HasParameters (ok q) s content ps i h = (i.0, ap (λ (x : Seen). parse x.1.0.query) i.1 ∙ h)
  IsRead-HasParameters (reject q) s content ps h e = absurd h
  IsRead-HasParameters throws s content ps h e = absurd h
  IsRead-HasParameters spent s content ps h e = absurd h

  -- The parameters of a builder, on a URL without a query, are those that the server reads: when the
  -- built request, made ready by `Prepare`, arrives in one piece, one call of `Parse` completes it, and
  -- its query is parsed into these parameters, in order. No key stands twice, is empty or holds an equals
  -- sign or an ampersand, and no value holds an ampersand. Nothing is encoded on the way: the built
  -- request is writable, so that its target holds no space and no percent sign.
  pub parse-build :
      (uuid : Text) (b : Builder) (ps : Parameters) (r : Request)
      → b.parameters ≡ flat ps
      → (init env.boost b.url true false blank).query ≡ []
      → All IsWritable ps
      → NodupKeys ps
      → Prepared.IsWritable env (build env.boost b)
      → prepare_request env.boost uuid (build env.boost b) ≡ some r
      → HasParameters ps (Feed.parse (of_requests env) (copy_payload r.message) new_parser)
  parse-build uuid b ps r e n w d s p =
      IsRead-HasParameters (Feed.parse (of_requests env) (copy_payload r.message) new_parser) _ _ ps
        (Prepared.parse-prepare_request env uuid (build env.boost b) r p s)
        (ap parse (built_query env.boost b ps e n) ∙ parse-join ps w d)
