-- ===== src/Http/Form/RoundTrip.antt =====
-- webcc/common.cc: `ContentDisposition::Init` reads back what `FormPart::SetHeaders` writes.
use devops_workshop.Boost.{Boost, IsSolid, trim-word, joined, all_solid_sound}
use devops_workshop.Http.Globals.{split2}
use devops_workshop.Http.Content.{ContentDisposition, content_disposition, disposition_loop, store}
use devops_workshop.Http.Form.{FormPart, name_text, file_name_text, disposition_text}
use devops_workshop.Prelude.{
  ◌≡◌, ◌≢◌, refl, ap, ◌∙◌, true, false, some, List, [], ◌∷◌, ◌++◌, append_assoc, append-nil, arith,
  All, All-append,
}
use devops_workshop.Bytes.{Text, codes, Lacks, equal, cut_lem}

-- A name can be quoted if it holds no quote and no semicolon.
pub record IsQuotable (s : Text) : Type 0 where
  pub quote : Lacks 34 s
  pub semicolon : Lacks b';' s

abbrev quoted : Text → Text
quoted s = 34 ∷ (s ++ 34 ∷ [])

-- One parameter of the field: a space, its key, and its value in quotes.
abbrev parameter : Text → Text → Text
parameter key value = b' ' ∷ (key ++ b'=' ∷ quoted value)

split2-parameter :
    (boost : Boost) (key value : Text)
    → All IsSolid key
    → Lacks b'=' key
    → split2 boost (parameter key value) b'=' ≡ some (key, quoted value)
unfolding split2
split2-parameter boost key value k n =
    rw (cut_lem b'=' (b' ' ∷ key) (quoted value) ((λ e. absurd (omega arith)), n)) (λ i. some (
      (boost.trim_space b' ' key refl ∙ trim-word boost key k) i,
      boost.trim_solid 34 34 value refl refl i,
    ))

Lacks-parameter :
    (key value : Text) → Lacks b';' key → Lacks b';' value → Lacks b';' (parameter key value)
Lacks-parameter key value k v = (
  (λ e. absurd (omega arith)),
  All-append (λ x. x ≢ b';') key (b'=' ∷ quoted value) k
      (
        (λ e. absurd (omega arith)),
        (
          (λ e. absurd (omega arith)),
          All-append (λ x. x ≢ b';') value (34 ∷ []) v ((λ e. absurd (omega arith)), tt),
        ),
      ),
)

module _ (boost : Boost) where
  loop-parameter :
      (key value : Text) (parts : List Text) (d : ContentDisposition)
      → All IsSolid key
      → Lacks b'=' key
      → Lacks 34 value
      → disposition_loop boost (parameter key value ∷ parts) d
        ≡ disposition_loop boost parts (store key value d)
  unfolding disposition_loop
  loop-parameter key value parts d k n q =
      rw (split2-parameter boost key value k n)
        (ap (λ v. disposition_loop boost parts (store key v d)) (boost.trim_quotes_quoted value q))

  -- the parameters that `SetHeaders` writes, one for each name that is not empty
  abbrev parameter_list : Text → Text → List Text
  parameter_list [] [] = []
  parameter_list [] (c ∷ f) = parameter (codes "filename") (c ∷ f) ∷ []
  parameter_list (c ∷ n) [] = parameter (codes "name") (c ∷ n) ∷ []
  parameter_list (c ∷ n) (d ∷ f) =
      parameter (codes "name") (c ∷ n) ∷ parameter (codes "filename") (d ∷ f) ∷ []

  filename-parameter :
      (value : Text) (parts : List Text) (d : ContentDisposition)
      → Lacks 34 value
      → disposition_loop boost (parameter (codes "filename") value ∷ parts) d
        ≡ disposition_loop boost parts (record d { file_name = value })
  unfolding equal
  filename-parameter value parts d q =
      loop-parameter (codes "filename") value parts d (all_solid_sound (codes "filename") refl)
        (omega arith) q

  name-parameter :
      (value : Text) (parts : List Text) (d : ContentDisposition)
      → Lacks 34 value
      → disposition_loop boost (parameter (codes "name") value ∷ parts) d
        ≡ disposition_loop boost parts (record d { name = value })
  unfolding equal
  name-parameter value parts d q =
      loop-parameter (codes "name") value parts d (all_solid_sound (codes "name") refl)
        (omega arith) q

  disposition_text-joined :
      (part : FormPart)
      → disposition_text part
        ≡ joined b';' (codes "form-data") (parameter_list part.name part.file_name)
  unfolding disposition_text
  disposition_text-joined part = go part.name part.file_name
    where
      go :
          (name file : Text)
          → (codes "form-data" ++ name_text name) ++ file_name_text file
            ≡ joined b';' (codes "form-data") (parameter_list name file)
      go [] [] = refl
      go [] (c ∷ f) = refl
      go (c ∷ n) [] = simp (append-nil)
      go (c ∷ n) (d ∷ f) = simp (append_assoc)

  parameter_list-Lacks :
      (name file : Text)
      → IsQuotable name
      → IsQuotable file
      → All (Lacks b';') (codes "form-data" ∷ parameter_list name file)
  parameter_list-Lacks [] [] p q = (omega arith, tt)
  parameter_list-Lacks [] (c ∷ f) p q =
      (omega arith, (Lacks-parameter (codes "filename") (c ∷ f) (omega arith) q.semicolon, tt))
  parameter_list-Lacks (c ∷ n) [] p q =
      (omega arith, (Lacks-parameter (codes "name") (c ∷ n) (omega arith) p.semicolon, tt))
  parameter_list-Lacks (c ∷ n) (d ∷ f) p q = (
    omega arith,
    (
      Lacks-parameter (codes "name") (c ∷ n) (omega arith) p.semicolon,
      (Lacks-parameter (codes "filename") (d ∷ f) (omega arith) q.semicolon, tt),
    ),
  )

  abbrev unread : ContentDisposition
  unread = record { name = []; file_name = []; valid = false }

  loop-parameter_list :
      (name file : Text)
      → IsQuotable name
      → IsQuotable file
      → disposition_loop boost (parameter_list name file) unread
        ≡ record { name = name; file_name = file; valid = true }
  loop-parameter_list [] [] p q = unfold disposition_loop in refl
  loop-parameter_list [] (c ∷ f) p q =
      filename-parameter (c ∷ f) [] unread q.quote ∙ (unfold disposition_loop in refl)
  loop-parameter_list (c ∷ n) [] p q =
      name-parameter (c ∷ n) [] unread p.quote ∙ (unfold disposition_loop in refl)
  loop-parameter_list (c ∷ n) (d ∷ f) p q =
      name-parameter (c ∷ n) (parameter (codes "filename") (d ∷ f) ∷ []) unread p.quote
      ∙ filename-parameter (d ∷ f) [] (record unread { name = c ∷ n }) q.quote
      ∙ (unfold disposition_loop in refl)

  -- The Content-Disposition that `SetHeaders` writes for a part is read back as valid, with the
  -- part's name and file name, either of which may be empty, if they hold no quote and no semicolon.
  pub content_disposition-disposition_text :
      (part : FormPart)
      → IsQuotable part.name
      → IsQuotable part.file_name
      → content_disposition boost (disposition_text part)
        ≡ record { name = part.name; file_name = part.file_name; valid = true }
  unfolding content_disposition equal
  content_disposition-disposition_text part p q = rw (disposition_text-joined part) (
      rw
        (boost.split_semicolons_joined (codes "form-data") (parameter_list part.name part.file_name)
          (parameter_list-Lacks part.name part.file_name p q))
        (loop-parameter_list part.name part.file_name p q))
