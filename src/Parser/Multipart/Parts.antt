-- ===== src/Parser/Multipart/Parts.antt =====
-- webcc/common.cc and request_parser.cc: the fields that `FormPart::Prepare` writes are read by
-- `ParsePartHeaders`.
use devops_workshop.Boost.{Boost, IsSolid, trim-word, iequals_refl, all_solid_sound}
use devops_workshop.Http.Globals.{split2}
use devops_workshop.Http.Form.{FormPart, blank_part, name_text, file_name_text, disposition_text}
use devops_workshop.Http.Form.RoundTrip.{IsQuotable, content_disposition-disposition_text}
use devops_workshop.Parser.HeaderLines.Written.{field_line}
use devops_workshop.Parser.Multipart.{
  parsed, take_part_field, part_next, part_round, part_loop, parse_part_headers,
}
use devops_workshop.Prelude.{
  ℕ, suc, ◌≡◌, ◌≢◌, refl, ap, ◌∙◌, some, [], ◌∷◌, ◌++◌, arith, length, drop, All, All-append,
}
use devops_workshop.Bytes.{Text, Lacks, codes, next_line_lem, cut_lem, lacks_sound}
use devops_workshop.Parser.Multipart.PartWire.{
  IsEncodable, disposition_name, type_name, typed_text, part_wire, type_no_disposition, value_trim,
}

module _ (boost : Boost) where
  -- A part that can be read back behind a boundary: its headers are not made yet, its names can be
  -- quoted and are of one line, as its media type is, and its data is not empty and of lines that are
  -- one field of a part is read
  part_line :
      (fuel : ℕ) (c : ℕ) (name value rest : Text) (part : FormPart)
      → Lacks 13 (field_line (c ∷ name) value)
      → Lacks b':' (c ∷ name)
      → All IsSolid (c ∷ name)
      → part_loop boost (suc fuel) (field_line (c ∷ name) value ++ 13 ∷ 10 ∷ rest) part
        ≡ part_next boost
            (part_loop boost fuel)
            rest
            part
            (take_part_field boost (some (c ∷ name, boost.trim (b' ' ∷ value))) part)
  unfolding part_loop split2
  part_line fuel c name value rest part l n s =
      ap (λ o. part_round boost (part_loop boost fuel) o part)
        (next_line_lem (field_line (c ∷ name) value) rest l)
      ∙ rw (cut_lem b':' (c ∷ name) (b' ' ∷ value) n) (
          ap
            (λ t.
              part_next boost (part_loop boost fuel) rest part
                (take_part_field boost (some (t, boost.trim (b' ' ∷ value))) part))
            (trim-word boost (c ∷ name) s))

  read_name : FormPart → FormPart → FormPart
  read_name part old = record old { name = part.name; file_name = part.file_name }

  take_disposition_lem :
      (part old : FormPart)
      → IsQuotable part.name
      → IsQuotable part.file_name
      → take_part_field boost
          (some (disposition_name, boost.trim (b' ' ∷ disposition_text part)))
          old
        ≡ some (read_name part old)
  unfolding read_name
  take_disposition_lem part old n f =
      rw
        (
          iequals_refl boost disposition_name,
          value_trim boost part,
          content_disposition-disposition_text boost part n f,
        )
        refl

  name-Lacks : (s : Text) → Lacks 13 s → Lacks 13 (name_text s)
  name-Lacks [] l = tt
  name-Lacks (c ∷ s) l =
      All-append (λ x. x ≢ 13) (codes "; name=") (34 ∷ ((c ∷ s) ++ 34 ∷ []))
        (lacks_sound 13 (codes "; name=") refl)
        (
          (λ e. absurd (omega arith)),
          All-append (λ x. x ≢ 13) (c ∷ s) (34 ∷ []) l ((λ e. absurd (omega arith)), tt),
        )

  file_name-Lacks : (s : Text) → Lacks 13 s → Lacks 13 (file_name_text s)
  file_name-Lacks [] l = tt
  file_name-Lacks (c ∷ s) l =
      All-append (λ x. x ≢ 13) (codes "; filename=") (34 ∷ ((c ∷ s) ++ 34 ∷ []))
        (lacks_sound 13 (codes "; filename=") refl)
        (
          (λ e. absurd (omega arith)),
          All-append (λ x. x ≢ 13) (c ∷ s) (34 ∷ []) l ((λ e. absurd (omega arith)), tt),
        )

  disposition_line-Lacks :
      (part : FormPart)
      → Lacks 13 part.name
      → Lacks 13 part.file_name
      → Lacks 13 (field_line disposition_name (disposition_text part))
  unfolding disposition_text
  disposition_line-Lacks part n f =
      All-append (λ x. x ≢ 13) (codes "Content-Disposition: form-data" ++ name_text part.name)
        (file_name_text part.file_name)
        (All-append (λ x. x ≢ 13) (codes "Content-Disposition: form-data") (name_text part.name)
          (lacks_sound 13 (codes "Content-Disposition: form-data") refl) (name-Lacks part.name n))
        (file_name-Lacks part.file_name f)

  -- the rest of the fields, up to the empty line
  typed_loop :
      (fuel : ℕ) (media_type rest : Text) (part : FormPart)
      → Lacks 13 media_type
      → part_loop boost (suc (suc fuel)) (typed_text media_type (13 ∷ 10 ∷ rest)) part
        ≡ parsed part rest
  typed_loop fuel [] rest part l =
      unfold part_loop in
      ap (λ o. part_round boost (part_loop boost (suc fuel)) o part) (next_line_lem [] rest tt)
  typed_loop fuel (c ∷ t) rest part l =
      part_line (suc fuel) b'C' (codes "ontent-Type") (c ∷ t) (13 ∷ 10 ∷ rest) part
        (All-append (λ x. x ≢ 13) (codes "Content-Type: ") (c ∷ t)
          (lacks_sound 13 (codes "Content-Type: ") refl) l)
        (lacks_sound b':' type_name refl) (all_solid_sound type_name refl)
      ∙ rw (type_no_disposition boost) (
          unfold part_loop in
          ap (λ o. part_round boost (part_loop boost fuel) o part) (next_line_lem [] rest tt))

  -- The headers of a part on the wire are read: its names, and what is behind the empty line.
  pub parse_part_headers-part_wire :
      (boundary : Text) (part : FormPart) (more : Text)
      → IsEncodable boundary part
      → parse_part_headers boost (part_wire part more) blank_part
        ≡ parsed
            (record blank_part { name = part.name; file_name = part.file_name })
            (part.body ++ 13 ∷ 10 ∷ more)
  unfolding parse_part_headers read_name
  parse_part_headers-part_wire boundary part more w =
      let rest = part.body ++ 13 ∷ 10 ∷ more in
      let behind = typed_text part.media_type (13 ∷ 10 ∷ rest) in
      part_line (length (part_wire part more)) b'C' (codes "ontent-Disposition")
        (disposition_text part) behind blank_part
        (disposition_line-Lacks part w.name_line w.file_line)
        (lacks_sound b':' disposition_name refl) (all_solid_sound disposition_name refl)
      ∙ ap (part_next boost (part_loop boost (length (part_wire part more))) behind blank_part)
          (take_disposition_lem part blank_part w.name_quotable w.file_quotable)
      ∙ typed_loop (length (drop 2 (part_wire part more))) part.media_type rest
          (read_name part blank_part) w.type_line
