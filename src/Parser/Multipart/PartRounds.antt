-- ===== src/Parser/Multipart/PartRounds.antt =====
-- webcc/request_parser.cc: the two rounds of the loop of `ParseMultipartContent` that read a part.
use devops_workshop.Boost.{Boost}
use devops_workshop.Http.Globals.{crlf}
use devops_workshop.Http.Form.{FormPart, blank_part, append_data}
use devops_workshop.Http.Request.{add_form_part}
use devops_workshop.Parser.State.{
  Parser, Step, boundary_parsed, headers_parsed, ended, reject, finish,
}
use devops_workshop.Parser.Multipart.{
  boundary_at, get_next_boundary_line, boundary_of, headers_step, data_step, add_part,
  multipart_round, multipart_loop, close_multipart,
}
use devops_workshop.Parser.Multipart.Boundary.{found_at}
use devops_workshop.Parser.Multipart.Lines.{marker, get_next_boundary_line-lines}
use devops_workshop.Parser.Multipart.Parts.{parse_part_headers-part_wire}
use devops_workshop.Parser.Multipart.PartWire.{IsEncodable, received, part_wire}
use devops_workshop.Prelude.{
  ℕ, suc, ◌-◌, ◌≡◌, ◌≢◌, refl, sym, ap, ◌∙◌, Bool, true, false, some, none, [], ◌∷◌, ◌++◌,
  append_assoc, arith, ltb, if◌then◌else◌, length, length-append, take, take-append,
}
use devops_workshop.Bytes.{Text, Lacks, equal}

module _ (boost : Boost) where
  data_lem :
      (boundary rest : Text) (part : FormPart) (last : Bool)
      → Lacks 13 boundary
      → IsEncodable boundary part
      → get_next_boundary_line boundary
          (part.body ++ 13 ∷ 10 ∷ (marker last boundary ++ (13 ∷ 10 ∷ rest)))
        ≡ boundary_at (found_at (part.body ++ crlf) rest last)
  data_lem boundary rest part last l w =
      let tail = marker last boundary ++ (13 ∷ 10 ∷ rest) in
      ap (get_next_boundary_line boundary)
        (sym (append_assoc part.body crlf tail) ∙ ap (λ t. t ++ tail) w.body_lines)
      ∙ get_next_boundary_line-lines w.lines boundary rest last l w.body_inside
      ∙ ap (λ t. boundary_at (found_at t rest last)) (sym w.body_lines)

  body_long : (body : Text) → body ≢ [] → ltb 2 (length (body ++ crlf)) ≡ true
  body_long [] n = absurd (n refl)
  body_long (c ∷ s) n = ground (arith, length-append s crlf)

  body_kept : (body : Text) → take (length (body ++ crlf) - 2) (body ++ crlf) ≡ body
  body_kept body =
      let e : length (body ++ crlf) - 2 ≡ length body = omega (arith, length-append body crlf) in
      ap (λ n. take n (body ++ crlf)) e ∙ take-append body crlf

  pub fields_round :
      (fuel : ℕ) (p : Parser) (part : FormPart) (more : Text)
      → IsEncodable (boundary_of p) part
      → multipart_loop boost
          (suc fuel)
          (record p { step = boundary_parsed; part = none; pending = part_wire part more })
        ≡ multipart_loop boost fuel (record p {
          step = headers_parsed;
          part = some (record blank_part { name = part.name; file_name = part.file_name });
          pending = part.body ++ 13 ∷ 10 ∷ more;
        })
  unfolding multipart_loop equal
  fields_round fuel p part more w =
      ap
        (λ h.
          headers_step (multipart_loop boost fuel) h
            (record p { step = boundary_parsed; part = none; pending = part_wire part more }))
        (parse_part_headers-part_wire boost (boundary_of p) part more w)

  -- the parser behind the data of a part
  abbrev pub kept_part : Parser → FormPart → Text → Step → Parser
  kept_part p part rest step = record p {
    request = add_form_part (received part) p.request;
    part = none;
    pending = rest;
    step = step;
  }

  equal-body : (body rest : Text) → body ≢ [] → equal (body ++ 13 ∷ rest) [] ≡ false
  unfolding equal
  equal-body [] rest n = refl
  equal-body (c ∷ s) rest n = refl

  -- the parser between the fields of a part and its data
  abbrev in_data : Parser → FormPart → Text → Parser
  in_data p part pending = record p {
    step = headers_parsed;
    part = some (record blank_part { name = part.name; file_name = part.file_name });
    pending = pending;
  }

  add_part-kept :
      (p : Parser) (part : FormPart) (pending rest : Text) (last : Bool)
      → add_part (found_at (part.body ++ crlf) rest last) (in_data p part pending)
        ≡ kept_part p part rest (if last then ended else boundary_parsed)
  unfolding append_data
  add_part-kept p part pending rest last = λ i.
      kept_part p (record part { body = body_kept part.body i }) rest
        (if last then ended else boundary_parsed)

  pub data_round :
      (fuel : ℕ) (p : Parser) (part : FormPart) (rest : Text) (last : Bool)
      → Lacks 13 (boundary_of p)
      → IsEncodable (boundary_of p) part
      → multipart_loop boost
          (suc fuel)
          (in_data p part (part.body ++ 13 ∷ 10 ∷ (marker last (boundary_of p) ++ 13 ∷ 10 ∷ rest)))
        ≡ (if last
            then finish boost (kept_part p part rest ended)
            else multipart_loop boost fuel (kept_part p part rest boundary_parsed))
  unfolding multipart_loop append_data
  data_round fuel p part rest last l w =
      let pending = part.body ++ 13 ∷ 10 ∷ (marker last (boundary_of p) ++ 13 ∷ 10 ∷ rest) in
      let q = in_data p part pending in
      let f = found_at (part.body ++ crlf) rest last in
      let loop = multipart_loop boost fuel in
      ap
        (λ b.
          if b
          then close_multipart boost headers_parsed q
          else multipart_round boost loop headers_parsed q)
        (equal-body part.body _ w.body_ne)
      ∙ ap (λ o. data_step boost loop o q) (data_lem (boundary_of p) rest part last l w)
      ∙ ap
          (λ b.
            if b
            then (if last then finish boost (add_part f q) else loop (add_part f q))
            else reject q)
          (body_long part.body w.body_ne)
      ∙ kept last pending
    where
      kept :
          (b : Bool) (t : Text)
          → (if b
              then finish boost (add_part (found_at (part.body ++ crlf) rest b) (in_data p part t))
              else multipart_loop boost fuel
                  (add_part (found_at (part.body ++ crlf) rest b) (in_data p part t)))
            ≡ (if b
                then finish boost (kept_part p part rest ended)
                else multipart_loop boost fuel (kept_part p part rest boundary_parsed))
      kept true t = ap (finish boost) (add_part-kept p part t rest true)
      kept false t = ap (multipart_loop boost fuel) (add_part-kept p part t rest false)
