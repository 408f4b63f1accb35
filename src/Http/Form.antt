-- ===== src/Http/Form.antt =====
-- webcc/common.h and common.cc: `FormPart`, a part of multipart form data. `FormPart` from a file is
-- a parameter's business: the file's bytes, name and extension are arguments.
pub mod RoundTrip
use devops_workshop.Boost.{Boost}
use devops_workshop.Http.Globals.{crlf, from_extension}
use devops_workshop.Http.Headers.{Headers, set}
use devops_workshop.Prelude.{
  zero, suc, true, false, Option, none, some, List, [], ◌∷◌, ◌++◌, if◌then◌else◌,
}
use devops_workshop.Bytes.{Text, codes, equal, cut, strip}

pub record FormPart : Type 0 where
  pub name : Text
  pub file_name : Text
  pub media_type : Text
  pub headers : Headers
  pub body : Text

abbrev pub blank_part : FormPart
blank_part = record { name = []; file_name = []; media_type = []; headers = []; body = [] }

-- the constructor from a file; `none` is `Exception(kFileIOError)`
unfoldable pub file_part : Text → Text → Text → Text → Option Text → Option FormPart
unfolding from_extension equal
file_part name media_type path_name extension none = none
file_part name media_type path_name extension (some content) = some (record {
  name = name;
  file_name = path_name;
  media_type = if equal media_type [] then from_extension extension false else media_type;
  headers = [];
  body = content;
})

-- the constructor from data
unfoldable pub data_part : Text → Text → Text → FormPart
data_part name content media_type = record {
  name = name;
  file_name = [];
  media_type = media_type;
  headers = [];
  body = content;
}

-- `AppendData`, both overloads
unfoldable pub append_data : Text → FormPart → FormPart
append_data content part = record part { body = part.body ++ content }

abbrev pub name_text : Text → Text
name_text [] = []
name_text (c ∷ name) = codes "; name=" ++ 34 ∷ ((c ∷ name) ++ 34 ∷ [])

abbrev pub file_name_text : Text → Text
file_name_text [] = []
file_name_text (c ∷ name) = codes "; filename=" ++ 34 ∷ ((c ∷ name) ++ 34 ∷ [])

-- the value that `SetHeaders` builds for Content-Disposition
unfoldable pub disposition_text : FormPart → Text
disposition_text part = (codes "form-data" ++ name_text part.name) ++ file_name_text part.file_name

-- `SetHeaders`
unfoldable pub set_headers : Boost → FormPart → FormPart
unfolding disposition_text equal
set_headers boost part =
    let named = set boost (codes "Content-Disposition") (disposition_text part) part.headers in
    let typed = set boost (codes "Content-Type") part.media_type named in
    record part { headers = if equal part.media_type [] then named else typed }

-- the buffers of one field, in a message or in a part
abbrev pub header_buffers : Headers → List Text
header_buffers [] = []
header_buffers ((name, value) ∷ hs) = name ∷ codes ": " ∷ value ∷ crlf ∷ header_buffers hs

abbrev pub body_buffer : Text → List Text
body_buffer [] = []
body_buffer (c ∷ s) = (c ∷ s) ∷ []

abbrev with_headers : Boost → Headers → FormPart → FormPart
with_headers boost [] part = set_headers boost part
with_headers boost (h ∷ hs) part = part

-- `Prepare`: the part with its headers, and the buffers that are added to the payload
unfoldable pub prepare_part : Boost → FormPart → FormPart × List Text
unfolding set_headers
prepare_part boost part =
    let ready = with_headers boost part.headers part in
    (ready, header_buffers ready.headers ++ (crlf ∷ (body_buffer ready.body ++ crlf ∷ [])))
