-- ===== src/FaceDetection/Exchange.antt =====
-- FaceDetectionService.cpp behind webcc: a POST to /images on its way from the client's request to the
-- server's connection, and its answer on the way back.
use mathlib.Core.Path.{subst}
use devops_workshop.Boost.{Boost, trim-word, all_solid_sound}
use devops_workshop.Numbers.{pos}
use devops_workshop.FaceDetection.Libraries.{Library}
use devops_workshop.FaceDetection.{post, face_detection_service, get, json_response}
use devops_workshop.FaceDetection.Post.{Posted, ignored, bad, failed, created, post-Posted}
use devops_workshop.FaceDetection.Routes.{images, found}
use devops_workshop.Http.Content.{content_type, valid}
use devops_workshop.Http.Message.{copy_payload}
use devops_workshop.Http.Request.{Request, prepare_request}
use devops_workshop.Http.Response.{Response}
use devops_workshop.Rest.Service.{RestResponse, Handled, unset_response, handle}
use devops_workshop.Rest.Manager.{Regex}
use devops_workshop.Rest.Handler.{answered, served, make_response, send_response, handle_connection}
use devops_workshop.Rest.ReadBack.{parse-make_response}
use devops_workshop.Rest.SentFields.{IsValue, IsTyped, word-IsValue}
use devops_workshop.Parser.State.{Env, of_responses, new_parser}
use devops_workshop.Parser.HeaderLines.StatusLine.{reported}
use devops_workshop.Parser.Feed.{parse}
use devops_workshop.Parser.Feed.Expected.{Seen}
use devops_workshop.Parser.Feed.Prepared.{IsWritable, parse-prepare_request}
use devops_workshop.Parser.Feed.WholeContent.{IsRead}
use devops_workshop.Server.KeepAlive.{on_read-IsRead, started_fresh}
use devops_workshop.Server.Connection.{Connection, enqueue, accepted_connection, on_read, start}
use devops_workshop.Url.Address.{blank}
use devops_workshop.Url.Query as Query
use devops_workshop.Prelude.{
  ℕ, ◌≡◌, refl, ap, ◌∙◌, true, none, some, [], ◌∷◌, length, if◌then◌else◌,
}
use devops_workshop.Bytes.{Text, codes, equal, cut}

module _ (boost : Boost) where
  abbrev json_text : Text
  json_text = codes "application/json;charset=utf-8"

  json_valid : valid (content_type boost json_text) ≡ true
  unfolding content_type valid equal cut
  json_valid =
      rw
        (trim-word boost (codes "application/json")
          (all_solid_sound (codes "application/json") refl))
        refl

  untyped : (rest : RestResponse) → rest.media_type ≡ [] → IsTyped boost rest
  untyped rest e = record { value = λ n. absurd (n e); type_valid = λ n. absurd (n e) }

module _ (boost : Boost) (lib : Library) where
  json-IsTyped : (status : ℕ) (v : lib.Value) → IsTyped boost (json_response lib status v)
  unfolding equal
  json-IsTyped status v = record {
    value = λ n. word-IsValue boost (json_text boost) (all_solid_sound (json_text boost) refl);
    type_valid = λ n. json_valid boost;
  }

  abbrev TypedResult : Handled → Type 0
  TypedResult none = Unit
  TypedResult (some rest) = IsTyped boost rest

  Posted-TypedResult :
      (cascade : lib.Cascade) (content : Text) (unset : ℕ) (h : Handled)
      → Posted lib cascade content (unset_response unset) h
      → TypedResult h
  Posted-TypedResult cascade content unset _ (ignored e) = untyped boost (unset_response unset) refl
  Posted-TypedResult cascade content unset _ (bad _ _ n p e) = untyped boost _ refl
  Posted-TypedResult cascade content unset _ (failed _ _ n p e f) = tt
  Posted-TypedResult cascade content unset _ (created _ _ image faces n p e f g) = json-IsTyped _ _

  -- The answer to a POST can be written.
  post-IsTyped :
      (cascade : lib.Cascade) (content : Text) (unset : ℕ) (rest : RestResponse)
      → post lib cascade content (unset_response unset) ≡ some rest
      → IsTyped boost rest
  post-IsTyped cascade content unset rest e = subst TypedResult e (
      Posted-TypedResult cascade content unset (post lib cascade content (unset_response unset))
        (post-Posted lib cascade content (unset_response unset)))

module _ (env : Env) (regex : Regex) (lib : Library) where
  handle_connection-post :
      (cascade : lib.Cascade) (timestamp : Text) (unset : ℕ) (q : Request)
      → q.method ≡ codes "POST"
      → q.url.path ≡ codes "images"
      → handle_connection env.boost regex timestamp unset (images env.boost regex lib cascade) q
        ≡ answered env.boost timestamp q (post lib cascade q.message.content (unset_response unset))
  unfolding handle_connection handle face_detection_service equal
  handle_connection-post cascade timestamp unset q m p =
      ap (served env.boost regex timestamp unset q) (
        found env.boost regex lib cascade (b'/' ∷ q.url.path)
        ∙ ap
            (λ (s : Text).
              if equal (codes "/images") (b'/' ∷ s)
              then some (face_detection_service lib cascade, [])
              else none)
            p)
      ∙ ap
          (λ (m : Text). answered env.boost timestamp q (
            if equal m (codes "GET")
            then get lib (Query.parse q.url.query) (unset_response unset)
            else if equal m (codes "POST")
            then post lib cascade q.message.content (unset_response unset)
            else some (unset_response unset)))
          m

  -- A POST to /images that is writable and that `Prepare` makes ready, with content that the service
  -- answers without an exception: the server's connection reads it in one call of `OnRead` and enqueues
  -- itself; `HandleConnection` sends a response; and that response is read back in one call of
  -- `Parse`, with the status of the service's answer, as `Status` reports it, and with the answer's
  -- content. The timestamp can stand in a field, and memory for the answer's content can be reserved.
  pub post_exchanged :
      (cascade : lib.Cascade) (uuid timestamp : Text) (unset : ℕ) (r r' : Request)
      (rest : RestResponse)
      → prepare_request env.boost uuid r ≡ some r'
      → IsWritable env r
      → r.method ≡ codes "POST"
      → r.url.path ≡ codes "images"
      → post lib cascade r.message.content (unset_response unset) ≡ some rest
      → IsValue env.boost timestamp
      → env.can_reserve (length rest.content) ≡ true
      → (c : Connection) × (on_read env timestamp none
            (copy_payload r'.message)
            (start accepted_connection).0
          ≡ some (c, enqueue))
        × (a : Response) × (handle_connection env.boost regex timestamp unset
              (images env.boost regex lib cascade)
              c.parser.request
            ≡ some a)
        × IsRead
            (pos (reported rest.status), (blank, []))
            rest.content
            (parse (of_responses env) (copy_payload a.message) new_parser)
  post_exchanged cascade uuid timestamp unset r r' rest e w m p o v k =
      let (c, read, s, content, _) =
        on_read-IsRead env timestamp (copy_payload r'.message) r.message.content _
          (start accepted_connection).0 started_fresh (parse-prepare_request env uuid r r' e w) in
      let q = c.parser.request in
      let given : post lib cascade q.message.content (unset_response unset) ≡ some rest =
        ap (λ t. post lib cascade t (unset_response unset)) content ∙ o in
      (
        c,
        read,
        send_response env.boost timestamp q (make_response env.boost rest),
        handle_connection-post cascade timestamp unset q (ap (λ (x : Seen). x.1.1) s ∙ m)
              (ap (λ (x : Seen). x.1.0.path) s ∙ p)
            ∙ ap (answered env.boost timestamp q) given,
        parse-make_response env timestamp q rest
            (post-IsTyped env.boost lib cascade r.message.content unset rest o) v k,
      )
