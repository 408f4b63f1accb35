-- ===== src/Rest/ReadBack.antt =====
-- webcc/rest_request_handler.cc, connection.cc and response.cc against response_parser.cc: the response
-- that a connection sends is read.
use mathlib.Core.Path.{subst}
use devops_workshop.Numbers.{pos, to_string}
use devops_workshop.Http.Globals.{status_line}
use devops_workshop.Http.Headers.{set}
use devops_workshop.Http.Message.{
  blank_message, copy_payload, set_content, set_content_length, set_content_type,
  is_connection_keep_alive,
}
use devops_workshop.Http.Request.{Request}
use devops_workshop.Http.Response.{Response, new_response, line_or, prepare_response}
use devops_workshop.Rest.Service.{RestResponse}
use devops_workshop.Rest.Handler.{set_response_content, make_response, send_response}
use devops_workshop.Parser.State.{Env, of_responses, new_parser}
use devops_workshop.Parser.HeaderLines.StatusLine.{reported}
use devops_workshop.Parser.Feed.{parse}
use devops_workshop.Parser.Feed.Expected.{IsField, announces}
use devops_workshop.Parser.Feed.FormFields.{length-IsField}
use devops_workshop.Parser.Feed.SetFields.{set-IsField, announces-set}
use devops_workshop.Parser.Feed.ReadResponse.{parse-written}
use devops_workshop.Parser.Feed.WholeContent.{IsRead}
use devops_workshop.Url.Address.{blank}
use devops_workshop.Prelude.{
  ℕ, ◌≡◌, ◌≢◌, inl, inr, refl, sym, ap, ◌∙◌, Bool, true, false, [], ◌∷◌, ◌++◌, length, All,
  Bool-cases, if◌then◌else◌,
}
use devops_workshop.Bytes.{Text, codes, equal, equal_iff, equal_refl}
use devops_workshop.Rest.SentFields.{
  IsValue, sent_headers, sent_headers-IsField, sent_headers-announces, type_text, IsTyped,
  type-IsField,
}

module _ (env : Env) where
  -- What a connection sends of a response without a start line is read back in one call of `Parse`,
  -- with the status, as `Status` reports it, and the content. The fields are readable and the timestamp
  -- can stand in one, a length is given with any content, and memory for it can be reserved.
  pub parse-send_response :
      (timestamp : Text) (request : Request) (r : Response)
      → r.message.start_line ≡ []
      → IsValue env.boost timestamp
      → All (IsField env.boost (length r.message.content)) r.message.headers
      → (announces env.boost r.message.headers ≡ false → r.message.content ≡ [])
      → env.can_reserve (length r.message.content) ≡ true
      → IsRead
          (pos (reported r.status), (blank, []))
          r.message.content
          (parse
            (of_responses env)
            (copy_payload (send_response env.boost timestamp request r).message)
            new_parser)
  unfolding send_response prepare_response
  parse-send_response timestamp request r l v a k m =
      let keep = is_connection_keep_alive env.boost request.message in
      let dated = record (r.message) {
        start_line = line_or r.message.start_line (status_line r.status);
        headers = sent_headers env.boost timestamp keep r.message.headers;
      } in
      parse-written env r.status dated (ap (λ t. line_or t (status_line r.status)) l)
        (sent_headers-IsField env.boost (length r.message.content) timestamp keep r.message.headers
          v a)
        (λ f. k (sym (sent_headers-announces env.boost timestamp keep r.message.headers) ∙ f)) m

  -- what a response holds that is made of a service's answer
  abbrev Made : RestResponse → Response → Type 0
  Made rest r =
      (r.message.start_line ≡ [])
      × (r.status ≡ rest.status)
      × (r.message.content ≡ rest.content)
      × All (IsField env.boost (length rest.content)) r.message.headers
      × (announces env.boost r.message.headers ≡ false → rest.content ≡ [])

  filled-Made :
      (rest : RestResponse) (r : Response)
      → r.message.start_line ≡ []
      → r.status ≡ rest.status
      → All (IsField env.boost (length rest.content)) r.message.headers
      → Made rest (set_response_content env.boost rest.content r)
  unfolding set_response_content set_content set_content_length
  filled-Made rest r l s a = (
    l,
    s,
    refl,
    set-IsField env.boost (length rest.content) (codes "Content-Length")
        (to_string (length rest.content)) r.message.headers
        (length-IsField env.boost (length rest.content)) a,
    λ e.
        absurd
          (cc (e, announces-set env.boost (to_string (length rest.content)) r.message.headers)),
  )

  typed_message :
      (rest : RestResponse)
      → set_content_type env.boost rest.media_type rest.charset blank_message
        ≡ record blank_message { headers = (codes "Content-Type", type_text env.boost rest) ∷ [] }
  unfolding set_content_type set
  typed_message rest = go (equal rest.charset [])
    where
      go :
          (b : Bool)
          → (if b
              then record blank_message { headers = (codes "Content-Type", rest.media_type) ∷ [] }
              else record blank_message {
                headers =
                    (codes "Content-Type", rest.media_type ++ (codes ";charset=" ++ rest.charset))
                    ∷ [];
              })
            ≡ record blank_message {
              headers =
                  (
                    codes "Content-Type",
                    (if b
                        then rest.media_type
                        else rest.media_type ++ (codes ";charset=" ++ rest.charset)),
                  )
                  ∷ [];
            }
      go true = refl
      go false = refl

  make_response-Made :
      (rest : RestResponse) → IsTyped env.boost rest → Made rest (make_response env.boost rest)
  unfolding make_response
  make_response-Made rest t = elim (Bool-cases (equal rest.content [])) [
    | inl e ↦
        let none_ = (equal_iff rest.content []).0 e in rw e (refl, refl, sym none_, tt, λ _. none_)
    | inr e ↦ rw e (elim (Bool-cases (equal rest.media_type [])) [
      | inl f ↦ rw f (filled-Made rest (new_response rest.status) refl refl tt)
      | inr f ↦ rw f (
          subst
            (λ m. Made rest (
              set_response_content env.boost rest.content
                (record { message = m; status = rest.status })))
            (sym (typed_message rest))
            (filled-Made rest
              (record {
                message = record blank_message {
                  headers = (codes "Content-Type", type_text env.boost rest) ∷ [];
                };
                status = rest.status;
              })
              refl refl
              (
                type-IsField env.boost (length rest.content) rest (type_ne rest.media_type f) t,
                tt,
              )))
    ])
  ]
    where
      type_ne : (s : Text) → equal s [] ≡ false → s ≢ []
      type_ne s f e = cc (f, ap (λ t. equal t []) e, equal_refl [])

  -- The answer of a service, turned into a response and sent, is read back in one call of `Parse`,
  -- with the answer's status, as `Status` reports it, and its content. Its content type is valid if it
  -- has one, the timestamp can stand in a field, and memory for the content can be reserved.
  pub parse-make_response :
      (timestamp : Text) (request : Request) (rest : RestResponse)
      → IsTyped env.boost rest
      → IsValue env.boost timestamp
      → env.can_reserve (length rest.content) ≡ true
      → IsRead
          (pos (reported rest.status), (blank, []))
          rest.content
          (parse
            (of_responses env)
            (copy_payload
              (send_response env.boost timestamp request (make_response env.boost rest)).message)
            new_parser)
  parse-make_response timestamp request rest t v m =
      let r = make_response env.boost rest in
      let (l, s, c, a, k) = make_response-Made rest t in
      subst
        (λ (x : ℕ × Text).
          IsRead (pos (reported x.0), (blank, [])) x.1
            (parse (of_responses env)
              (copy_payload (send_response env.boost timestamp request r).message) new_parser))
        (λ i. (s i, c i))
        (parse-send_response timestamp request r l v
          (subst (λ x. All (IsField env.boost (length x)) r.message.headers) (sym c) a)
          (λ f. c ∙ k f) (ap (λ x. env.can_reserve (length x)) c ∙ m))
