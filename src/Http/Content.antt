-- ===== src/Http/Content.antt =====
-- webcc/common.h and common.cc: the Content-Type and Content-Disposition fields.
pub mod Boundary
use devops_workshop.Boost.{Boost}
use devops_workshop.Http.Globals.{split2}
use devops_workshop.Prelude.{
  zero, suc, Bool, true, false, not, ◌&&◌, Option, none, some, List, [], ◌∷◌, if◌then◌else◌,
}
use devops_workshop.Bytes.{Text, codes, equal, cut, strip}

pub record ContentType : Type 0 where
  pub media_type : Text
  pub additional : Text
  pub multipart : Bool

abbrev pub no_content_type : ContentType
no_content_type = record { media_type = []; additional = []; multipart = false }

-- What `ParseValue` leaves in `value`: `Split2` writes it before the key is compared.
abbrev pub value_of : Option (Text × Text) → Text → Text
value_of none value = value
value_of (some (key, v)) value = v

-- What `ParseValue` returns.
abbrev pub value_ok : Text → Option (Text × Text) → Bool
value_ok expected none = false
value_ok expected (some (key, v)) = equal key expected && not (equal v [])

abbrev media_and_other : Text → Option (Text × Text) → Text × Text
media_and_other str none = (str, [])
media_and_other str (some (media, other)) = (media, other)

abbrev pub multipart_name : Text
multipart_name = codes "multipart/form-data"

module _ (boost : Boost) where
  -- `ContentType::Init` on cleared members; what `ParseValue` returns is only logged there
  unfoldable pub content_type : Text → ContentType
  unfolding equal cut split2
  content_type str =
      let (media, other) = media_and_other str (cut b';' str) in
      let media_type = boost.trim media in
      let parsed = split2 boost (boost.trim other) b'=' in
      record {
        media_type = media_type;
        additional = value_of parsed [];
        multipart = equal media_type multipart_name;
      }

-- `ContentType::Valid`
unfoldable pub valid : ContentType → Bool
unfolding equal
valid c =
    if equal c.media_type []
    then false
    else if c.multipart
    then not (equal c.additional [])
    else true

pub record ContentDisposition : Type 0 where
  pub name : Text
  pub file_name : Text
  pub valid : Bool

abbrev pub store : Text → Text → ContentDisposition → ContentDisposition
store key value d =
    if equal key (codes "name")
    then record d { name = value }
    else if equal key (codes "filename")
    then record d { file_name = value }
    else d

module _ (boost : Boost) where
  -- one round of the loop of `ContentDisposition::Init`; `next` is the rest of the loop
  abbrev pub after_split :
      Option (Text × Text)
      → (ContentDisposition → ContentDisposition)
      → ContentDisposition
      → ContentDisposition
  after_split none next d = d
  after_split (some (key, value)) next d = next (store key (boost.trim_quotes value) d)

  -- the loop of `ContentDisposition::Init`, and the `true` behind it
  unfoldable pub disposition_loop : List Text → ContentDisposition → ContentDisposition
  unfolding equal
  disposition_loop [] d = record d { valid = true }
  disposition_loop (part ∷ parts) d =
      after_split (split2 boost part b'=') (disposition_loop parts) d

  unfoldable pub disposition_parts : List Text → ContentDisposition → ContentDisposition
  unfolding disposition_loop
  disposition_parts [] d = d
  disposition_parts (first ∷ parts) d =
      if equal first (codes "form-data") then disposition_loop parts d else d

  -- `ContentDisposition::Init`
  unfoldable pub content_disposition : Text → ContentDisposition
  unfolding disposition_parts
  content_disposition str =
      disposition_parts (boost.split_semicolons str)
        (record { name = []; file_name = []; valid = false })
