-- ===== src/Http/Request.antt =====
-- webcc/request.h and request.cc: `Request`.
use mathlib.Core.Option
use devops_workshop.Boost.{Boost}
use devops_workshop.Http.Globals.{crlf}
use devops_workshop.Http.Form.{FormPart, prepare_part}
use devops_workshop.Http.Message.{Message, blank_message, set_header, set_content_length, prepare}
use devops_workshop.Url.Address.{Url, blank, init}
use devops_workshop.Prelude.{
  ℕ, ◌+◌, ◌%◌, ◌^◌, true, not, Option, none, some, List, [], ◌∷◌, ◌++◌, if◌then◌else◌, length,
}
use devops_workshop.Bytes.{Text, codes, equal}

pub record Request : Type 0 where
  pub message : Message
  pub method : Text
  pub url : Url
  pub form_parts : List FormPart
  pub boundary : Text

abbrev pub blank_request : Request
blank_request = record {
  message = blank_message;
  method = [];
  url = blank;
  form_parts = [];
  boundary = [];
}

-- `set_url`
unfoldable pub set_url : Boost → Text → Request → Request
set_url boost str r = record r { url = init boost str true true r.url }

-- `AddFormPart`
abbrev pub add_form_part : FormPart → Request → Request
add_form_part part r = record r { form_parts = r.form_parts ++ part ∷ [] }

abbrev pub target_query : Text → Text
target_query [] = []
target_query (c ∷ q) = b'?' ∷ c ∷ q

-- the start line that `CreateStartLine` builds
abbrev pub request_line : Request → Text
request_line r =
    r.method ++ b' ' ∷ ((b'/' ∷ (r.url.path ++ target_query r.url.query)) ++ codes " HTTP/1.1")

-- `CreateStartLine`; `none` is `Exception(kSchemaError)`
unfoldable pub create_start_line : Request → Option Request
unfolding equal
create_start_line r =
    if not (equal r.message.start_line [])
    then some r
    else if equal r.url.host []
    then none
    else some (record r { message = record (r.message) { start_line = request_line r } })

abbrev pub host_text : Url → Text
host_text u = if equal u.port [] then u.host else u.host ++ b':' ∷ u.port

-- the buffers of the parts, each behind its boundary, and the parts with their headers
unfoldable pub part_buffers : Boost → Text → List FormPart → List FormPart × List Text
part_buffers boost boundary [] = ([], [])
part_buffers boost boundary (part ∷ parts) =
    let (ready, buffers) = prepare_part boost part in
    let (rest, more) = part_buffers boost boundary parts in
    (ready ∷ rest, codes "--" ∷ boundary ∷ crlf ∷ (buffers ++ more))

abbrev pub closing : Text → List Text
closing boundary = codes "--" ∷ boundary ∷ codes "--" ∷ crlf ∷ []

abbrev pub sum_lengths : List Text → ℕ
sum_lengths [] = 0
sum_lengths (b ∷ bs) = length b + sum_lengths bs

-- the part of `Prepare` for multipart form data
unfoldable pub prepare_form : Boost → Text → Request → Request
unfolding part_buffers set_content_length prepare
prepare_form boost boundary r =
    let typed =
      set_header boost (codes "Content-Type") (codes "multipart/form-data; boundary=" ++ boundary)
        r.message in
    let (parts, buffers) = part_buffers boost boundary r.form_parts in
    let data_payload = buffers ++ closing boundary in
    let sized = set_content_length boost (sum_lengths data_payload % 2 ^ 64) typed in
    let ready = prepare sized in
    record r {
      message = record ready { payload = ready.payload ++ data_payload };
      form_parts = parts;
      boundary = boundary;
    }

abbrev pub boundary_or : Text → Text → Text
boundary_or [] uuid = uuid
boundary_or (c ∷ s) uuid = c ∷ s

-- `Prepare` behind the start line; `uuid` is what `RandomUuid` returns
unfoldable pub prepare_parts : Boost → Text → List FormPart → Request → Request
unfolding prepare_form prepare
prepare_parts boost uuid [] r = record r { message = prepare r.message }
prepare_parts boost uuid (p ∷ ps) r = prepare_form boost (boundary_or r.boundary uuid) r

-- `Request::Prepare`
unfoldable pub prepare_request : Boost → Text → Request → Option Request
unfolding create_start_line prepare_parts
prepare_request boost uuid r =
    Option.map
      (λ (started : Request). prepare_parts boost uuid started.form_parts (record started {
        message = set_header boost (codes "Host") (host_text started.url) started.message;
      }))
      (create_start_line r)
