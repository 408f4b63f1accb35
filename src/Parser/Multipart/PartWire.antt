-- ===== src/Parser/Multipart/PartWire.antt =====
-- webcc/common.cc: a form part as `FormPart::Prepare` writes it.
use mathlib.Core.Path.{subst}
use devops_workshop.Boost.{Boost, IsSolid, trim-word, all_solid_sound}
use devops_workshop.Http.Globals.{crlf}
use devops_workshop.Http.Headers.{set}
use devops_workshop.Http.Form.{
  FormPart, blank_part, name_text, file_name_text, disposition_text, set_headers, prepare_part,
  body_buffer,
}
use devops_workshop.Http.Form.RoundTrip.{IsQuotable}
use devops_workshop.Http.Message.{joined_buffers}
use devops_workshop.Parser.HeaderLines.Written.{field_line}
use devops_workshop.Parser.Multipart.Lines.{IsInside, lines_text}
use devops_workshop.Prelude.{
  ℕ, ◌≡◌, ◌≢◌, refl, sym, ap, ◌∙◌, false, List, [], ◌∷◌, ◌++◌, append_assoc, append-nil, arith,
  length, length-append, ◌+◌, ◌≤◌, All,
}
use devops_workshop.Bytes.{Text, Lacks, codes, equal}

-- no boundary lines.
pub record IsEncodable (boundary : Text) (part : FormPart) : Type 0 where
  pub fresh : part.headers ≡ []
  pub name_quotable : IsQuotable part.name
  pub file_quotable : IsQuotable part.file_name
  pub name_line : Lacks 13 part.name
  pub file_line : Lacks 13 part.file_name
  pub type_line : Lacks 13 part.media_type
  pub lines : List Text
  pub body_lines : part.body ++ crlf ≡ lines_text lines
  pub body_inside : All (IsInside boundary) lines
  pub body_ne : part.body ≢ []

-- what is read of a part
abbrev pub received : FormPart → FormPart
received part = record blank_part { name = part.name; file_name = part.file_name; body = part.body }

abbrev pub disposition_name : Text
disposition_name = codes "Content-Disposition"

abbrev pub type_name : Text
type_name = codes "Content-Type"

-- the line for the media type, if there is one, in front of more
abbrev pub typed_text : Text → Text → Text
typed_text [] more = more
typed_text (c ∷ t) more = field_line type_name (c ∷ t) ++ 13 ∷ 10 ∷ more

-- a part on the wire, in front of more
abbrev pub part_wire : FormPart → Text → Text
part_wire part more =
    field_line disposition_name (disposition_text part)
    ++ 13 ∷ 10 ∷ typed_text part.media_type (13 ∷ 10 ∷ (part.body ++ 13 ∷ 10 ∷ more))

length-typed_text : (t more : Text) → length more ≤ length (typed_text t more)
length-typed_text [] more = omega arith
length-typed_text (c ∷ t) more =
    omega (arith, length-append (field_line type_name (c ∷ t)) (13 ∷ 10 ∷ more))

pub length-part_wire :
    (part : FormPart) (more : Text) → length more + 4 ≤ length (part_wire part more)
length-part_wire part more =
    let rest = 13 ∷ 10 ∷ (part.body ++ 13 ∷ 10 ∷ more) in
    omega (
      arith,
      length-append (field_line disposition_name (disposition_text part))
          (13 ∷ 10 ∷ typed_text part.media_type rest),
      length-typed_text part.media_type rest,
      length-append part.body (13 ∷ 10 ∷ more),
    )

module _ (boost : Boost) where
  pub type_no_disposition : boost.iequals type_name disposition_name ≡ false
  unfolding equal
  type_no_disposition = boost.iequals_fold type_name disposition_name

  disposition_no_type : boost.iequals disposition_name type_name ≡ false
  unfolding equal
  disposition_no_type = boost.iequals_fold disposition_name type_name

  body_joined :
      (body : Text) (more : List Text)
      → joined_buffers ((body_buffer body ++ crlf ∷ []) ++ more)
        ≡ body ++ 13 ∷ 10 ∷ joined_buffers more
  body_joined [] more = refl
  body_joined (c ∷ s) more = refl

  fresh_wire :
      (name file_name media_type body : Text) (more : List Text)
      → joined_buffers (
          (prepare_part boost (record {
            name = name;
            file_name = file_name;
            media_type = media_type;
            headers = [];
            body = body;
          })).1
          ++ more)
        ≡ part_wire
            (record {
              name = name;
              file_name = file_name;
              media_type = media_type;
              headers = [];
              body = body;
            })
            (joined_buffers more)
  unfolding prepare_part set_headers set equal
  fresh_wire name file_name [] body more = rw (body_joined body more) refl
  fresh_wire name file_name (c ∷ t) body more = rw (disposition_no_type, body_joined body more) refl

  -- The buffers of a part are the part on the wire.
  pub prepare_part-part_wire :
      (part : FormPart) (more : List Text)
      → part.headers ≡ []
      → joined_buffers ((prepare_part boost part).1 ++ more) ≡ part_wire part (joined_buffers more)
  unfolding prepare_part disposition_text
  prepare_part-part_wire part more e =
      ap (λ hs. joined_buffers ((prepare_part boost (record part { headers = hs })).1 ++ more)) e
      ∙ fresh_wire part.name part.file_name part.media_type part.body more

  trim-quoted :
      (c : ℕ) (a b : Text)
      → IsSolid c
      → boost.trim (c ∷ (a ++ 34 ∷ (b ++ 34 ∷ []))) ≡ c ∷ (a ++ 34 ∷ (b ++ 34 ∷ []))
  trim-quoted c a b h =
      let e : (a ++ 34 ∷ b) ++ 34 ∷ [] ≡ a ++ 34 ∷ (b ++ 34 ∷ []) =
        append_assoc a (34 ∷ b) (34 ∷ []) in
      subst (λ t. boost.trim (c ∷ t) ≡ c ∷ t) e (boost.trim_solid c 34 (a ++ 34 ∷ b) h refl)

  form_data_trim :
      (name file : Text)
      → boost.trim ((codes "form-data" ++ name_text name) ++ file_name_text file)
        ≡ (codes "form-data" ++ name_text name) ++ file_name_text file
  form_data_trim [] [] =
      trim-word boost (codes "form-data") (all_solid_sound (codes "form-data") refl)
  form_data_trim (c ∷ n) [] =
      subst (λ t. boost.trim t ≡ t) (sym (append-nil (codes "form-data" ++ name_text (c ∷ n))))
        (trim-quoted b'f' (codes "orm-data; name=") (c ∷ n) refl)
  form_data_trim name (c ∷ f) =
      subst (λ t. boost.trim t ≡ t)
        (append_assoc (codes "form-data" ++ name_text name) (codes "; filename=")
          (34 ∷ ((c ∷ f) ++ 34 ∷ [])))
        (trim-quoted b'f' ((codes "orm-data" ++ name_text name) ++ codes "; filename=") (c ∷ f)
          refl)

  pub value_trim :
      (part : FormPart) → boost.trim (b' ' ∷ disposition_text part) ≡ disposition_text part
  unfolding disposition_text
  value_trim part =
      boost.trim_space b' ' (disposition_text part) refl ∙ form_data_trim part.name part.file_name
