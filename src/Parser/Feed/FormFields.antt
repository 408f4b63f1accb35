-- ===== src/Parser/Feed/FormFields.antt =====
-- webcc/request.cc: the fields that `Request::Prepare` sets for a form are readable, and give its
-- boundary.
use mathlib.Core.Path.{subst}
use devops_workshop.Boost.{Boost, IsSolid, trim-word, snoc, all_solid_sound}
use devops_workshop.Numbers.{to_string}
use devops_workshop.Http.Content.{ContentType, no_content_type, multipart_name}
use devops_workshop.Http.Content.Boundary.{content_type-multipart_text}
use devops_workshop.Http.Headers.{Headers, set}
use devops_workshop.Http.Headers.Laws.{NodupNames}
use devops_workshop.Parser.HeaderLines.Written.{to_string-IsSolid}
use devops_workshop.Parser.Feed.Expected.{IsField, declared}
use devops_workshop.Parser.Feed.SetFields.{set-IsField, declared-set, declared-set_other}
use devops_workshop.Prelude.{
  ℕ, ◌≡◌, ◌≢◌, refl, sym, ◌∙◌, true, [], ◌∷◌, ◌++◌, arith, All, All-append,
}
use devops_workshop.Bytes.{Text, Lacks, codes, equal, lacks_sound}

pub solid_line : (s : Text) → All IsSolid s → Lacks 13 s
solid_line [] h = tt
solid_line (c ∷ s) h = ((λ e. not_return c e h.0), solid_line s h.1)
  where
    not_return : (d : ℕ) → d ≡ 13 → IsSolid d → ⊥
    not_return d e h = ground arith

-- the content type of a form
abbrev pub form_type : Text → ContentType
form_type boundary = record { media_type = multipart_name; additional = boundary; multipart = true }

module _ (boost : Boost) where
  form_text-trim :
      (boundary : Text)
      → All IsSolid boundary
      → boundary ≢ []
      → boost.trim (codes "multipart/form-data; boundary=" ++ boundary)
        ≡ codes "multipart/form-data; boundary=" ++ boundary
  form_text-trim [] h n = absurd (n refl)
  form_text-trim (c ∷ s) h n =
      let (a, d, e, k) = snoc c s h in
      let lit = codes "ultipart/form-data; boundary=" in
      subst (λ t. boost.trim (b'm' ∷ (lit ++ t)) ≡ b'm' ∷ (lit ++ t)) (sym e)
        (boost.trim_solid b'm' d (lit ++ a) refl k)

  form_type-IsField :
      (n : ℕ) (boundary : Text)
      → All IsSolid boundary
      → boundary ≢ []
      → IsField boost n (codes "Content-Type", codes "multipart/form-data; boundary=" ++ boundary)
  unfolding equal
  form_type-IsField n boundary h ne = record {
    name_line = lacks_sound 13 (codes "Content-Type") refl;
    value_line =
        All-append (λ x. x ≢ 13) (codes "multipart/form-data; boundary=") boundary
          (lacks_sound 13 (codes "multipart/form-data; boundary=") refl) (solid_line boundary h);
    name_colon = lacks_sound b':' (codes "Content-Type") refl;
    name_trimmed =
        trim-word boost (codes "Content-Type") (all_solid_sound (codes "Content-Type") refl);
    value_trimmed = form_text-trim boundary h ne;
    length_is =
        λ e. cc (sym e ∙ boost.iequals_fold (codes "Content-Type") (codes "Content-Length"));
    type_is = λ e.
        (content_type-multipart_text boost (codes "boundary") boundary
          (all_solid_sound (codes "boundary") refl) h (lacks_sound b'=' (codes "boundary") refl)
          ne).1;
    coding_is = λ e. refl;
  }

  pub length-IsField : (n : ℕ) → IsField boost n (codes "Content-Length", to_string n)
  unfolding equal
  length-IsField n = record {
    name_line = lacks_sound 13 (codes "Content-Length") refl;
    value_line = solid_line (to_string n) (to_string-IsSolid n);
    name_colon = lacks_sound b':' (codes "Content-Length") refl;
    name_trimmed =
        trim-word boost (codes "Content-Length") (all_solid_sound (codes "Content-Length") refl);
    value_trimmed = trim-word boost (to_string n) (to_string-IsSolid n);
    length_is = λ e. refl;
    type_is = λ e. cc (sym e ∙ boost.iequals_fold (codes "Content-Length") (codes "Content-Type"));
    coding_is =
        λ e. cc (sym e ∙ boost.iequals_fold (codes "Content-Length") (codes "Transfer-Encoding"));
  }

  -- the fields of a form
  abbrev pub form_headers : ℕ → Text → Headers → Headers
  form_headers n boundary hs =
      set boost (codes "Content-Length") (to_string n)
        (set boost (codes "Content-Type") (codes "multipart/form-data; boundary=" ++ boundary) hs)

  pub form_headers-declared :
      (n : ℕ) (boundary : Text) (hs : Headers)
      → All IsSolid boundary
      → boundary ≢ []
      → NodupNames boost hs
      → declared boost no_content_type (form_headers n boundary hs) ≡ form_type boundary
  unfolding equal
  form_headers-declared n boundary hs h ne d =
      declared-set_other boost no_content_type (codes "Content-Length") (to_string n)
        (set boost (codes "Content-Type") (codes "multipart/form-data; boundary=" ++ boundary) hs)
        (boost.iequals_fold (codes "Content-Length") (codes "Content-Type"))
      ∙ declared-set boost no_content_type (codes "multipart/form-data; boundary=" ++ boundary) hs d
      ∙ (content_type-multipart_text boost (codes "boundary") boundary
          (all_solid_sound (codes "boundary") refl) h (lacks_sound b'=' (codes "boundary") refl)
          ne).0

  pub form_headers-IsField :
      (n : ℕ) (boundary : Text) (hs : Headers)
      → All IsSolid boundary
      → boundary ≢ []
      → All (IsField boost n) hs
      → All (IsField boost n) (form_headers n boundary hs)
  form_headers-IsField n boundary hs h ne a =
      set-IsField boost n (codes "Content-Length") (to_string n)
        (set boost (codes "Content-Type") (codes "multipart/form-data; boundary=" ++ boundary) hs)
        (length-IsField n)
        (set-IsField boost n (codes "Content-Type")
          (codes "multipart/form-data; boundary=" ++ boundary) hs
          (form_type-IsField n boundary h ne) a)
