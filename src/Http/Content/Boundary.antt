-- ===== src/Http/Content/Boundary.antt =====
-- webcc/common.cc: a Content-Type of multipart form data takes its boundary from any parameter.
use devops_workshop.Boost.{Boost, IsSolid, trim-word, all_solid_sound}
use devops_workshop.Http.Globals.{split2}
use devops_workshop.Http.Content.{content_type, multipart_name, valid}
use devops_workshop.Prelude.{◌≡◌, ◌≢◌, refl, ap, ◌∙◌, true, some, [], ◌∷◌, ◌++◌, All, All-append}
use devops_workshop.Bytes.{Text, Lacks, cut_lem}

-- A header value with one parameter, as in multipart/form-data; boundary=something.
abbrev pub multipart_text : Text → Text → Text
multipart_text key value = multipart_name ++ b';' ∷ b' ' ∷ (key ++ b'=' ∷ value)

split2-word :
    (boost : Boost) (key value : Text)
    → All IsSolid key
    → All IsSolid value
    → Lacks b'=' key
    → split2 boost (key ++ b'=' ∷ value) b'=' ≡ some (key, value)
unfolding split2
split2-word boost key value k v n =
    rw (cut_lem b'=' key value n) (λ i. some (trim-word boost key k i, trim-word boost value v i))

valid-multipart :
    (value : Text)
    → value ≢ []
    → valid (record { media_type = multipart_name; additional = value; multipart = true }) ≡ true
unfolding valid
valid-multipart [] n = absurd (n refl)
valid-multipart (c ∷ s) n = refl

-- Multipart form data with one parameter, of any name, is valid and has the value of the parameter
-- as its boundary. The name and the value hold no space, the name no equals sign, and the value is
-- not empty.
pub content_type-multipart_text :
    (boost : Boost) (key value : Text)
    → All IsSolid key
    → All IsSolid value
    → Lacks b'=' key
    → value ≢ []
    → (content_type boost (multipart_text key value)
        ≡ record { media_type = multipart_name; additional = value; multipart = true })
      × (valid (content_type boost (multipart_text key value)) ≡ true)
content_type-multipart_text boost key value k v n ne =
    (parsed, ap valid parsed ∙ valid-multipart value ne)
  where
    other : boost.trim (b' ' ∷ (key ++ b'=' ∷ value)) ≡ key ++ b'=' ∷ value
    other =
        boost.trim_space b' ' (key ++ b'=' ∷ value) refl
        ∙ trim-word boost (key ++ b'=' ∷ value) (All-append IsSolid key (b'=' ∷ value) k (refl, v))

    media : boost.trim multipart_name ≡ multipart_name
    media = trim-word boost multipart_name (all_solid_sound multipart_name refl)

    parsed :
        content_type boost (multipart_text key value)
        ≡ record { media_type = multipart_name; additional = value; multipart = true }
    parsed = unfold content_type in rw (media, other, split2-word boost key value k v n)
