-- ===== src/Parser/Multipart/Form.antt =====
-- webcc/request.cc and request_parser.cc: the form that `Request::Prepare` writes is read by
-- `ParseMultipartContent`.
use devops_workshop.Boost.{Boost}
use devops_workshop.Http.Form.{FormPart, prepare_part}
use devops_workshop.Http.Message.{joined_buffers}
use devops_workshop.Http.Request.{part_buffers, closing}
use devops_workshop.Parser.State.{Parser, start, boundary_parsed, ended, finish}
use devops_workshop.Parser.Multipart.{boundary_of, start_step, multipart_loop}
use devops_workshop.Parser.Multipart.Boundary.{inner_line, closing_line, inner_is_boundary}
use devops_workshop.Parser.Multipart.PartWire.{
  IsEncodable, received, part_wire, prepare_part-part_wire, length-part_wire,
}
use devops_workshop.Prelude.{
  ℕ, suc, ◌+◌, ◌*◌, ◌-◌, ◌≤◌, ◌≡◌, refl, sym, ap, ◌∙◌, true, false, none, List, [], ◌∷◌, ◌++◌, map,
  append_assoc, arith, length, length-append, All,
}
use devops_workshop.Bytes.{Text, Lacks, codes, equal, next_line_lem}
use devops_workshop.Parser.Multipart.PartRounds.{fields_round, kept_part, data_round}

-- the parts behind the first boundary line
abbrev pub behind : Text → FormPart → List FormPart → Text
behind boundary part [] = part_wire part (closing_line boundary ++ 13 ∷ 10 ∷ [])
behind boundary part (q ∷ qs) =
    part_wire part (inner_line boundary ++ 13 ∷ 10 ∷ behind boundary q qs)

module _ (boost : Boost) where
  -- What `Prepare` adds to the payload is the parts on the wire.
  pub part_buffers-behind :
      (boundary : Text) (part : FormPart) (parts : List FormPart)
      → All (IsEncodable boundary) (part ∷ parts)
      → joined_buffers ((part_buffers boost boundary (part ∷ parts)).1 ++ closing boundary)
        ≡ inner_line boundary ++ 13 ∷ 10 ∷ behind boundary part parts
  unfolding part_buffers
  part_buffers-behind boundary part [] (w, _) =
      let last = append_assoc (inner_line boundary) (codes "--") (13 ∷ 10 ∷ []) in
      ap (λ t. inner_line boundary ++ 13 ∷ 10 ∷ t)
        (ap joined_buffers (append_assoc (prepare_part boost part).1 [] (closing boundary))
          ∙ prepare_part-part_wire boost part (closing boundary) w.fresh
          ∙ ap (part_wire part) (sym last))
  part_buffers-behind boundary part (q ∷ qs) (w, ws) =
      let more = (part_buffers boost boundary (q ∷ qs)).1 in
      ap (λ t. inner_line boundary ++ 13 ∷ 10 ∷ t)
        (ap joined_buffers (append_assoc (prepare_part boost part).1 more (closing boundary))
          ∙ prepare_part-part_wire boost part (more ++ closing boundary) w.fresh
          ∙ ap (part_wire part) (part_buffers-behind boundary q qs ws))

  -- two rounds for each part, and more
  abbrev form_rounds : List FormPart → ℕ → ℕ
  form_rounds [] n = n
  form_rounds (x ∷ xs) n = suc (suc (form_rounds xs n))

  form_rounds_lem : (parts : List FormPart) (n : ℕ) → form_rounds parts n ≡ 2 * length parts + n
  form_rounds_lem [] n = omega arith
  form_rounds_lem (x ∷ xs) n = omega (arith, form_rounds_lem xs n)

  -- the parser behind the last part
  abbrev pub with_parts : Parser → List FormPart → Parser
  with_parts p parts = record p {
    request = record (p.request) { form_parts = p.request.form_parts ++ map received parts };
    part = none;
    pending = [];
    step = ended;
  }

  loop-parts :
      (part : FormPart) (parts : List FormPart) (n : ℕ) (p : Parser)
      → Lacks 13 (boundary_of p)
      → All (IsEncodable (boundary_of p)) (part ∷ parts)
      → multipart_loop boost (form_rounds (part ∷ parts) n) (record p {
        step = boundary_parsed;
        part = none;
        pending = behind (boundary_of p) part parts;
      })
        ≡ finish boost (with_parts p (part ∷ parts))
  loop-parts part [] n p l (w, ws) =
      fields_round boost (suc n) p part (closing_line (boundary_of p) ++ 13 ∷ 10 ∷ []) w
      ∙ data_round boost n p part [] true l w
  loop-parts part (q ∷ qs) n p l (w, ws) =
      let rest = behind (boundary_of p) q qs in
      let k = form_rounds (q ∷ qs) n in
      fields_round boost (suc k) p part (inner_line (boundary_of p) ++ 13 ∷ 10 ∷ rest) w
      ∙ data_round boost k p part rest false l w
      ∙ loop-parts q qs n (kept_part boost p part rest boundary_parsed) l ws
      ∙ ap
          (λ t.
            finish boost
              (record (with_parts p []) { request = record (p.request) { form_parts = t } }))
          (append_assoc p.request.form_parts (received part ∷ []) (map received (q ∷ qs)))

  start_round :
      (fuel : ℕ) (p : Parser) (rest : Text)
      → Lacks 13 (boundary_of p)
      → multipart_loop boost (suc fuel) (record p {
        step = start;
        part = none;
        pending = inner_line (boundary_of p) ++ 13 ∷ 10 ∷ rest;
      })
        ≡ multipart_loop boost fuel
            (record p { step = boundary_parsed; part = none; pending = rest })
  unfolding multipart_loop equal
  start_round fuel p rest l =
      let q = record p {
        step = start;
        part = none;
        pending = inner_line (boundary_of p) ++ 13 ∷ 10 ∷ rest;
      } in
      ap (λ o. start_step (multipart_loop boost fuel) o q)
        (next_line_lem (inner_line (boundary_of p)) rest
          ((λ e. absurd (omega arith)), ((λ e. absurd (omega arith)), l)))
      ∙ rw (inner_is_boundary (boundary_of p)) refl

  length-behind :
      (boundary : Text) (part : FormPart) (parts : List FormPart)
      → 2 * length (part ∷ parts) ≤ length (behind boundary part parts)
  length-behind boundary part [] = omega arith
  length-behind boundary part (q ∷ qs) =
      let rest = behind boundary q qs in
      omega (
        arith,
        length-part_wire part (inner_line boundary ++ 13 ∷ 10 ∷ rest),
        length-append (inner_line boundary) (13 ∷ 10 ∷ rest),
        length-behind boundary q qs,
      )

  -- A form whose parts are on the wire is read to its end by the loop, on more rounds than it has
  -- bytes: its parts, with their names and data, stand behind those that were there.
  pub multipart_loop-form :
      (part : FormPart) (parts : List FormPart) (p : Parser)
      → Lacks 13 (boundary_of p)
      → All (IsEncodable (boundary_of p)) (part ∷ parts)
      → p.step ≡ start
      → p.part ≡ none
      → p.pending ≡ inner_line (boundary_of p) ++ 13 ∷ 10 ∷ behind (boundary_of p) part parts
      → multipart_loop boost (suc (length p.pending)) p ≡ finish boost (with_parts p (part ∷ parts))
  multipart_loop-form part parts p l w s o e =
      let rest = behind (boundary_of p) part parts in
      let all = inner_line (boundary_of p) ++ 13 ∷ 10 ∷ rest in
      let n = length all - 2 * length (part ∷ parts) in
      let enough : suc (length all) ≡ suc (form_rounds (part ∷ parts) n) = omega (
        arith,
        form_rounds_lem (part ∷ parts) n,
        length-append (inner_line (boundary_of p)) (13 ∷ 10 ∷ rest),
        length-behind (boundary_of p) part parts,
      ) in
      (λ i.
        multipart_loop boost (suc (length (e i)))
          (record p { step = s i; part = o i; pending = e i }))
      ∙ ap (λ m. multipart_loop boost m (record p { step = start; part = none; pending = all }))
          enough
      ∙ start_round (form_rounds (part ∷ parts) n) p rest l
      ∙ loop-parts part parts n p l w
