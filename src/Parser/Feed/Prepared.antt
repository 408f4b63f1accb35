-- ===== src/Parser/Feed/Prepared.antt =====
-- webcc/request.cc and request_parser.cc: the request that `Request::Prepare` makes ready is read, with
-- its content or with its form parts.
use mathlib.Core.Option
use mathlib.Core.Path.{subst}
use devops_workshop.Boost.{Boost, IsSolid}
use devops_workshop.Numbers.{pos}
use devops_workshop.Http.Content.{ContentType, no_content_type}
use devops_workshop.Http.Form.{FormPart}
use devops_workshop.Http.Headers.Laws.{NodupNames, set-NodupNames}
use devops_workshop.Http.Message.{copy_payload, set_header}
use devops_workshop.Http.Request.{
  Request, request_line, create_start_line, host_text, boundary_or, prepare_form, prepare_parts,
  prepare_request,
}
use devops_workshop.Url.Address.{blank}
use devops_workshop.Parser.State.{Env, of_requests, new_parser}
use devops_workshop.Parser.Multipart.PartWire.{IsEncodable, received}
use devops_workshop.Parser.Feed.{parse}
use devops_workshop.Parser.Feed.Expected.{IsField, announces, declared}
use devops_workshop.Parser.Feed.SetFields.{set-IsField, announces-set_other, declared-set_other}
use devops_workshop.Parser.Feed.WholeContent.{IsRead}
use devops_workshop.Parser.Feed.ReadRequest.{IsSendable, parse-written_request}
use devops_workshop.Parser.Feed.ReadForm.{form_text, parse-prepare_form}
use devops_workshop.Parser.Feed.FormContent.{IsFormRead}
use devops_workshop.Prelude.{
  ◌≡◌, ◌≢◌, refl, sym, ap, ◌∙◌, Bool, true, false, not, none, some, List, [], ◌∷◌, map, length, All,
  if◌then◌else◌,
}
use devops_workshop.Bytes.{Text, codes, equal}

module _ (boost : Boost) where
  -- the request with its start line and its Host field
  abbrev pub hosted : Request → Request
  hosted r = record r {
    message =
        set_header boost (codes "Host") (host_text r.url)
          (record (r.message) { start_line = request_line r });
  }

  prepare_request-hosted :
      (uuid : Text) (r r' : Request)
      → r.message.start_line ≡ []
      → prepare_request boost uuid r ≡ some r'
      → prepare_parts boost uuid r.form_parts (hosted r) ≡ r'
  unfolding prepare_request create_start_line equal
  prepare_request-hosted uuid r r' s e =
      let started = record r { message = record (r.message) { start_line = request_line r } } in
      let ready : Request → Request = λ t.
        prepare_parts boost uuid t.form_parts
          (record t { message = set_header boost (codes "Host") (host_text t.url) t.message }) in
      go ready started (equal r.url.host []) (
        ap
          (λ l. Option.map ready (
            if not (equal l [])
            then some r
            else if equal r.url.host []
            then none
            else some started))
          (sym s)
        ∙ e)
    where
      go :
          (f : Request → Request) (t : Request) (b : Bool)
          → Option.map f (if b then none else some t) ≡ some r'
          → f t ≡ r'
      go f t true h = absurd (cc)
      go f t false h = cc

module _ (env : Env) where
  -- A request with content that is read as it was written, once `Prepare` has made it ready: its
  -- start line is not built yet and can be read back, it has no form parts, its fields and its host
  -- are readable, and with any content comes its length.
  pub record IsWritable (r : Request) : Type 0 where
    pub no_line : r.message.start_line ≡ []
    pub no_parts : r.form_parts ≡ []
    pub sendable : IsSendable r
    pub host_field : IsField env.boost (length r.message.content) (codes "Host", host_text r.url)
    pub fields : All (IsField env.boost (length r.message.content)) r.message.headers
    pub announced : announces env.boost r.message.headers ≡ false → r.message.content ≡ []
    pub no_form : (declared env.boost no_content_type r.message.headers).multipart ≡ false
    pub room : env.can_reserve (length r.message.content) ≡ true

  -- A request with content that `Prepare` makes ready is read back in one call of `Parse`, with the
  -- method, the path, the query and the content, if it is writable.
  pub parse-prepare_request :
      (uuid : Text) (r r' : Request)
      → prepare_request env.boost uuid r ≡ some r'
      → IsWritable r
      → IsRead
          (pos 200, (record blank { path = r.url.path; query = r.url.query }, r.method))
          r.message.content
          (parse (of_requests env) (copy_payload r'.message) new_parser)
  unfolding prepare_parts equal
  parse-prepare_request uuid r r' e w =
      subst
        (λ q.
          IsRead (pos 200, (record blank { path = r.url.path; query = r.url.query }, r.method))
            r.message.content (parse (of_requests env) (copy_payload q.message) new_parser))
        (ap (λ ps. prepare_parts env.boost uuid ps (hosted env.boost r)) (sym w.no_parts)
          ∙ prepare_request-hosted env.boost uuid r r' w.no_line e)
        (parse-written_request env r (hosted env.boost r).message refl w.sendable
          (set-IsField env.boost (length r.message.content) (codes "Host") (host_text r.url)
            r.message.headers w.host_field w.fields)
          (λ f. w.announced (
            sym (
              announces-set_other env.boost (codes "Host") (host_text r.url) r.message.headers
                (env.boost.iequals_fold (codes "Host") (codes "Content-Length")))
            ∙ f))
          w.room
          (ap (λ (c : ContentType). c.multipart)
              (declared-set_other env.boost no_content_type (codes "Host") (host_text r.url)
                r.message.headers (env.boost.iequals_fold (codes "Host") (codes "Content-Type")))
            ∙ w.no_form))

  -- A request with form parts that `Prepare` makes ready is read back in one call of `Parse`: the
  -- method, the path and the query, and of each part its name, its file name and its data, in order.
  -- The start line is not built yet and can be read back, and there is no other content. The boundary
  -- is not empty and holds no space. The parts' headers are not made yet, their names and media types
  -- are of one line, and the names hold no quote and no semicolon; their data is not empty, and none
  -- of its lines is a boundary line or has the form of a closing one. The fields are readable, Host
  -- among them, none of them twice, and memory for the form can be reserved.
  pub parse-prepare_request_form :
      (uuid : Text) (r r' : Request)
      → prepare_request env.boost uuid r ≡ some r'
      → r.message.start_line ≡ []
      → r.message.content ≡ []
      → r.form_parts ≢ []
      → IsSendable r
      → All IsSolid (boundary_or r.boundary uuid)
      → boundary_or r.boundary uuid ≢ []
      → All (IsEncodable (boundary_or r.boundary uuid)) r.form_parts
      → NodupNames env.boost r.message.headers
      → All
          (IsField env.boost (length (form_text env (boundary_or r.boundary uuid) r.form_parts)))
          ((codes "Host", host_text r.url) ∷ r.message.headers)
      → env.can_reserve (length (form_text env (boundary_or r.boundary uuid) r.form_parts)) ≡ true
      → IsFormRead
          (pos 200, (record blank { path = r.url.path; query = r.url.query }, r.method))
          (map received r.form_parts)
          (parse (of_requests env) (copy_payload r'.message) new_parser)
  unfolding prepare_parts
  parse-prepare_request_form uuid r r' e l c p s b ne w d k m =
      let boundary = boundary_or r.boundary uuid in
      let n = length (form_text env boundary r.form_parts) in
      subst
        (λ q.
          IsFormRead (pos 200, (record blank { path = r.url.path; query = r.url.query }, r.method))
            (map received r.form_parts)
            (parse (of_requests env) (copy_payload q.message) new_parser))
        (sym (in_form r.form_parts p) ∙ prepare_request-hosted env.boost uuid r r' l e)
        (parse-prepare_form env (hosted env.boost r) boundary refl c p
          (record {
            method_ne = s.method_ne;
            one_line = s.one_line;
            method_space = s.method_space;
            target_space = s.target_space;
            target_percent = s.target_percent;
            path_mark = s.path_mark;
            target_scheme = s.target_scheme;
          })
          b ne w (set-NodupNames env.boost (codes "Host") (host_text r.url) r.message.headers d)
          (set-IsField env.boost n (codes "Host") (host_text r.url) r.message.headers k.0 k.1) m)
    where
      in_form :
          (ps : List FormPart)
          → ps ≢ []
          → prepare_parts env.boost uuid ps (hosted env.boost r)
            ≡ prepare_form env.boost (boundary_or r.boundary uuid) (hosted env.boost r)
      in_form [] ne = absurd (ne refl)
      in_form (x ∷ xs) ne = refl
