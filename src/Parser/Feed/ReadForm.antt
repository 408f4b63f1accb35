-- ===== src/Parser/Feed/ReadForm.antt =====
-- webcc/request.cc and request_parser.cc: a request with form parts that is written is read.
use mathlib.Core.Path.{subst}
use devops_workshop.Boost.{IsSolid}
use devops_workshop.Numbers.{pos, to_string}
use devops_workshop.Http.Globals.{crlf}
use devops_workshop.Http.Content.{ContentType}
use devops_workshop.Http.Form.{FormPart, header_buffers, body_buffer}
use devops_workshop.Http.Headers.{set}
use devops_workshop.Http.Headers.Laws.{NodupNames}
use devops_workshop.Http.Message.{prepare, copy_payload, joined_buffers, set_content_length}
use devops_workshop.Http.Request.{
  Request, request_line, prepare_form, part_buffers, closing, sum_lengths,
}
use devops_workshop.Url.Address.{blank}
use devops_workshop.Parser.State.{of_requests, Env, Outcome, ◌>>=◌, new_parser}
use devops_workshop.Parser.HeaderLines.{parse_start_line, take_line, headers_loop, unerased}
use devops_workshop.Parser.HeaderLines.Written.{parse_start_line-request_line}
use devops_workshop.Parser.Multipart.PartWire.{IsEncodable, received}
use devops_workshop.Parser.Multipart.Form.{part_buffers-behind}
use devops_workshop.Parser.Feed.{parse, content_if_ended}
use devops_workshop.Parser.Feed.Expected.{Seen, written, IsField}
use devops_workshop.Parser.Feed.SetFields.{announces-set}
use devops_workshop.Parser.Feed.Fields.{Ended}
use devops_workshop.Parser.Feed.FormFields.{
  solid_line, form_type, form_headers, form_headers-declared, form_headers-IsField,
}
use devops_workshop.Parser.Feed.ReadRequest.{IsSendable, line_ne}
use devops_workshop.Parser.Feed.Whole.{begun, started-Ended}
use devops_workshop.Prelude.{
  suc, ◌≡◌, ◌≢◌, ◌%◌, ◌^◌, refl, sym, ap, ◌∙◌, Bool, true, false, ◌||◌, List, [], ◌∷◌, ◌++◌, map,
  arith, length, All,
}
use devops_workshop.Bytes.{Text, Lacks, codes}
use devops_workshop.Parser.Feed.FormContent.{
  IsFormRead, sum_lengths-joined, written_data, Ended-IsFormRead,
}

module _ (env : Env) where
  -- the text of the form parts of a request
  abbrev pub form_text : Text → List FormPart → Text
  form_text boundary parts =
      joined_buffers ((part_buffers env.boost boundary parts).1 ++ closing boundary)

  form_line :
      (r : Request) (boundary : Text)
      → r.message.content ≡ []
      → env.can_reserve (length (form_text boundary r.form_parts)) ≡ true
      → copy_payload (prepare_form env.boost boundary r).message
        ≡ r.message.start_line
          ++ 13
            ∷ 10
            ∷ written
                (form_headers env.boost
                  (length (form_text boundary r.form_parts))
                  boundary
                  r.message.headers)
                (form_text boundary r.form_parts)
  unfolding copy_payload prepare_form prepare set_content_length
  form_line r boundary c m =
      let buffers = (part_buffers env.boost boundary r.form_parts).1 ++ closing boundary in
      let size : sum_lengths buffers % 2 ^ 64 ≡ length (joined_buffers buffers) = omega (
        arith,
        sum_lengths-joined buffers,
        env.reserve_limit (length (joined_buffers buffers)) m,
      ) in
      let fields =
        form_headers env.boost (length (joined_buffers buffers)) boundary r.message.headers in
      (λ i.
        r.message.start_line
        ++ 13
          ∷ 10
          ∷ joined_buffers (
              (header_buffers (form_headers env.boost (size i) boundary r.message.headers)
                ++ (crlf ∷ body_buffer (c i)))
              ++ buffers))
      ∙ ap (λ t. r.message.start_line ++ 13 ∷ 10 ∷ t) (written_data fields buffers)

  text-behind :
      (boundary : Text) (parts : List FormPart)
      → parts ≢ []
      → All (IsEncodable boundary) parts
      → (s : Seen) (pending : Text) (o : Outcome) → Lacks 13 boundary
      → env.can_reserve (length (form_text boundary parts)) ≡ true
      → Ended
          (of_requests env)
          (length (form_text boundary parts))
          (s, form_type boundary)
          (form_text boundary parts)
          true
          o
      → IsFormRead s
          (map received parts)
          (unerased pending o >>= content_if_ended (of_requests env))
  text-behind boundary [] ne w s pending o l m h = absurd (ne refl)
  text-behind boundary (part ∷ parts) ne w s pending o l m h =
      Ended-IsFormRead env s boundary (form_text boundary (part ∷ parts)) part parts pending o l w
        (part_buffers-behind env.boost boundary part parts w) m h

  -- What `Prepare` writes of a form, under the start line of a request without content, is read back in
  -- one call of `Parse`, with the method, the path, the query and the form parts.
  pub parse-prepare_form :
      (r : Request) (boundary : Text)
      → r.message.start_line ≡ request_line r
      → r.message.content ≡ []
      → r.form_parts ≢ []
      → IsSendable r
      → All IsSolid boundary
      → boundary ≢ []
      → All (IsEncodable boundary) r.form_parts
      → NodupNames env.boost r.message.headers
      → All (IsField env.boost (length (form_text boundary r.form_parts))) r.message.headers
      → env.can_reserve (length (form_text boundary r.form_parts)) ≡ true
      → IsFormRead
          (pos 200, (record blank { path = r.url.path; query = r.url.query }, r.method))
          (map received r.form_parts)
          (parse
            (of_requests env)
            (copy_payload (prepare_form env.boost boundary r).message)
            new_parser)
  unfolding parse take_line
  parse-prepare_form r boundary e c ne s h b w d k m =
      let text = form_text boundary r.form_parts in
      let hs = form_headers env.boost (length text) boundary r.message.headers in
      let url = record blank { path = r.url.path; query = r.url.query } in
      let known =
        ap (λ b. b || false)
          (announces-set env.boost (to_string (length text)) (
            set env.boost (codes "Content-Type")
              (codes "multipart/form-data; boundary=" ++ boundary) r.message.headers)) in
      let look : Seen = (pos 200, (url, r.method)) in
      let p = begun r.message.start_line (written hs text) in
      let all = r.message.start_line ++ 13 ∷ 10 ∷ written hs text in
      subst
        (λ t. IsFormRead look (map received r.form_parts) (parse (of_requests env) t new_parser))
        (sym (form_line r boundary c m))
        (text-behind boundary r.form_parts ne w look all
          (headers_loop (of_requests env) (suc (length all)) (record new_parser { pending = all }))
          (solid_line boundary h) m
          (subst
            (λ (x : ContentType × Bool).
              Ended (of_requests env) (length text) (look, x.0) text x.1
                (headers_loop (of_requests env) (suc (length all))
                  (record new_parser { pending = all })))
            (λ i. (
              form_headers-declared env.boost (length text) boundary r.message.headers h b d i,
              known i,
            ))
            (started-Ended (of_requests env) look (length text) r.message.start_line text hs
              (record p { request = record (p.request) { method = r.method; url = url } })
              (subst (λ l. Lacks 13 l × (l ≢ [])) (sym e)
                (s.one_line, line_ne r.method _ s.method_ne))
              (ap (λ l. parse_start_line (of_requests env) l p) e
                ∙ parse_start_line-request_line (of_requests env) r p s.method_ne s.method_space
                    s.target_space s.target_percent s.path_mark s.target_scheme)
              (refl, (refl, refl, refl, refl, (refl, (refl, refl, refl)), λ x. cc)) refl refl
              (form_headers-IsField env.boost (length text) boundary r.message.headers h b k) m)))
