-- ===== src/Parser/Feed/FormContent.antt =====
-- webcc/request_parser.cc: a form whose text waits behind the headers is read.
use mathlib.Core.Path.{subst}
use devops_workshop.Http.Globals.{crlf}
use devops_workshop.Http.Content.{ContentType}
use devops_workshop.Http.Form.{FormPart, header_buffers, body_buffer}
use devops_workshop.Http.Headers.{Headers}
use devops_workshop.Http.Message.{joined_buffers}
use devops_workshop.Http.Request.{sum_lengths}
use devops_workshop.Parser.State.{
  of_requests, Parser, Env, store_content, Outcome, ok, reject, throws, spent, ◌>>=◌, finish,
}
use devops_workshop.Parser.HeaderLines.{unerased}
use devops_workshop.Parser.Multipart.{parse_multipart_content, multipart_loop}
use devops_workshop.Parser.Multipart.Boundary.{inner_line}
use devops_workshop.Parser.Multipart.PartWire.{IsEncodable, received}
use devops_workshop.Parser.Multipart.Form.{with_parts, behind, multipart_loop-form}
use devops_workshop.Parser.Feed.{parse_content, multipart_fuel, content_if_ended}
use devops_workshop.Parser.Feed.Expected.{Seen, seen, written}
use devops_workshop.Parser.Feed.Fields.{Ended}
use devops_workshop.Parser.Feed.FormFields.{form_type}
use devops_workshop.Parser.Feed.WholeContent.{known_length}
use devops_workshop.Parser.Body.{parse_fixed_content, parse_chunked_content}
use devops_workshop.Prelude.{
  suc, ◌+◌, ◌≡◌, refl, sym, ap, ◌∙◌, true, not, ◌||◌, List, [], ◌∷◌, ◌++◌, map, append_assoc,
  append-nil, arith, length, length-append, All, if◌then◌else◌,
}
use devops_workshop.Bytes.{Text, Lacks}

-- The message is complete, with what its start line gives, and with its form parts.
abbrev pub IsFormRead : Seen → List FormPart → Outcome → Type 0
IsFormRead s parts (ok q) = (q.finished ≡ true) × (seen q ≡ s) × (q.request.form_parts ≡ parts)
IsFormRead s parts _ = ⊥

joined_buffers-append :
    (a b : List Text) → joined_buffers (a ++ b) ≡ joined_buffers a ++ joined_buffers b
joined_buffers-append [] b = refl
joined_buffers-append (x ∷ a) b =
    ap (λ t. x ++ t) (joined_buffers-append a b)
    ∙ sym (append_assoc x (joined_buffers a) (joined_buffers b))

pub sum_lengths-joined : (bs : List Text) → sum_lengths bs ≡ length (joined_buffers bs)
sum_lengths-joined [] = refl
sum_lengths-joined (b ∷ bs) =
    omega (arith, sum_lengths-joined bs, length-append b (joined_buffers bs))

pub written_data :
    (hs : Headers) (bs : List Text)
    → joined_buffers ((header_buffers hs ++ (crlf ∷ [])) ++ bs) ≡ written hs (joined_buffers bs)
written_data hs bs =
    ap joined_buffers (append_assoc (header_buffers hs) (crlf ∷ []) bs)
    ∙ joined_buffers-append (header_buffers hs) (crlf ∷ bs)
    ∙ ap (λ t. joined_buffers (header_buffers hs) ++ 13 ∷ 10 ∷ t) (body (joined_buffers bs))
    ∙ sym (joined_buffers-append (header_buffers hs) (crlf ∷ body_buffer (joined_buffers bs)))
  where
    body : (t : Text) → t ≡ joined_buffers (body_buffer t)
    body [] = refl
    body (c ∷ s) = sym (append-nil (c ∷ s))

module _ (env : Env) where
  finish-IsFormRead :
      (s : Seen) (parts : List FormPart) (p : Parser)
      → p.content ≡ []
      → seen p ≡ s
      → p.request.form_parts ≡ parts
      → IsFormRead s parts (finish env.boost p)
  unfolding finish
  finish-IsFormRead s parts p c e f =
      subst
        (λ t. IsFormRead s parts (ok (store_content env.boost t (record p { finished = true }))))
        (sym c) (refl, e, f)

  -- The parts are read where their text waits behind the headers.
  parts-IsFormRead :
      (s : Seen) (boundary text : Text) (part : FormPart) (parts : List FormPart) (q : Parser)
      → Lacks 13 boundary
      → All (IsEncodable boundary) (part ∷ parts)
      → text ≡ inner_line boundary ++ 13 ∷ 10 ∷ behind boundary part parts
      → env.can_reserve (length text) ≡ true
      → Ended (of_requests env) (length text) (s, form_type boundary) text true (ok q)
      → IsFormRead s (map received (part ∷ parts)) (content_if_ended (of_requests env) q)
  unfolding parse_content parse_multipart_content
  parts-IsFormRead s boundary text part parts q l w t m
        (h, (unchunked, c, _, e, (type, (step, none_yet, no_parts)), known), r, g) =
      let all = q.pending ++ [] in
      let p = record q { pending = all } in
      let full : all ≡ text = append-nil q.pending ∙ r in
      let b : boundary ≡ q.request.message.content_type.additional =
        ap (λ c. c.additional) (sym type) in
      let fuel : suc (length q.pending + 0) ≡ suc (length all) =
        omega (arith, length-append q.pending []) in
      let multipart =
        parse_multipart_content env.boost (multipart_fuel (of_requests env) [] q) [] q in
      subst (IsFormRead s (map received (part ∷ parts)))
        (sym (
          ap (λ b. if b then parse_content (of_requests env) [] q else ok q) h
          ∙ ap
              (λ b.
                if b
                then parse_chunked_content env.boost [] q
                else if q.request.message.content_type.multipart
                then multipart
                else parse_fixed_content env.boost [] q)
              unchunked
          ∙ ap
              (λ (c : ContentType).
                if c.multipart then multipart else parse_fixed_content env.boost [] q)
              type
          ∙ (λ i.
              if not (g i)
                || known_length (of_requests env) q.content_length (length text) m (known g) i
              then reject p
              else multipart_loop env.boost (fuel i) p)
          ∙ multipart_loop-form env.boost part parts p (subst (Lacks 13) b l)
              (subst (λ b. All (IsEncodable b) (part ∷ parts)) b w) step none_yet
              (full ∙ t ∙ ap (λ b. inner_line b ++ 13 ∷ 10 ∷ behind b part parts) b)))
        (finish-IsFormRead s (map received (part ∷ parts)) (with_parts env.boost p (part ∷ parts)) c
          e (ap (λ l. l ++ map received (part ∷ parts)) no_parts))

  pub Ended-IsFormRead :
      (s : Seen) (boundary text : Text) (part : FormPart) (parts : List FormPart) (pending : Text)
      (o : Outcome)
      → Lacks 13 boundary
      → All (IsEncodable boundary) (part ∷ parts)
      → text ≡ inner_line boundary ++ 13 ∷ 10 ∷ behind boundary part parts
      → env.can_reserve (length text) ≡ true
      → Ended (of_requests env) (length text) (s, form_type boundary) text true o
      → IsFormRead s
          (map received (part ∷ parts))
          (unerased pending o >>= content_if_ended (of_requests env))
  Ended-IsFormRead s boundary text part parts pending (ok q) l w t m h =
      parts-IsFormRead s boundary text part parts q l w t m h
  Ended-IsFormRead s boundary text part parts pending (reject q) l w t m h = absurd h
  Ended-IsFormRead s boundary text part parts pending throws l w t m h = absurd h
  Ended-IsFormRead s boundary text part parts pending spent l w t m h = absurd h
