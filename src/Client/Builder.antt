-- ===== src/Client/Builder.antt =====
-- webcc/request_builder.h and request_builder.cc: `RequestBuilder`, built without gzip. The files of
-- `File` and the encoding of base64 are parameters.
pub mod Query
pub mod Fields
use mathlib.Core.Option
use devops_workshop.Boost.{Boost}
use devops_workshop.Http.Form.{FormPart, file_part, data_part}
use devops_workshop.Http.Message.{Message, set_header, set_content, set_content_type}
use devops_workshop.Http.Request.{Request, blank_request}
use devops_workshop.Url.Address.{Url, blank, init, add_query}
use devops_workshop.Prelude.{
  Bool, true, false, not, Option, some, List, [], ◌∷◌, ◌++◌, if◌then◌else◌,
}
use devops_workshop.Bytes.{Text, codes, equal}

pub record Builder : Type 0 where
  pub method : Text
  pub url : Text
  pub parameters : List Text
  pub data_ : Text
  pub json : Bool
  pub form_parts : List FormPart
  pub headers : List Text
  pub keep_alive : Bool

-- the constructor
abbrev pub new_builder : Builder
new_builder = record {
  method = [];
  url = [];
  parameters = [];
  data_ = [];
  json = false;
  form_parts = [];
  headers = [];
  keep_alive = true;
}

-- `Query`
abbrev pub query : Text → Text → Builder → Builder
query key value b = record b { parameters = b.parameters ++ key ∷ value ∷ [] }

-- `Header`
abbrev pub header : Text → Text → Builder → Builder
header key value b = record b { headers = b.headers ++ key ∷ value ∷ [] }

-- `Form` of a part
abbrev pub form : FormPart → Builder → Builder
form part b = record b { form_parts = b.form_parts ++ part ∷ [] }

-- `Form` of a name and data
abbrev pub form_data : Text → Text → Text → Builder → Builder
form_data name content media_type = form (data_part name content media_type)

-- `File`; `none` is an exception
abbrev pub file : Text → Text → Text → Text → Option Text → Builder → Option Builder
file name media_type path_name extension content b =
    Option.map (λ part. form part b) (file_part name media_type path_name extension content)

-- `Auth`
abbrev pub auth : Text → Text → Builder → Builder
auth type credentials = header (codes "Authorization") (type ++ b' ' ∷ credentials)

-- `AuthBasic`
abbrev pub auth_basic : (Text → Text) → Text → Text → Builder → Builder
auth_basic base64 login password = auth (codes "Basic") (base64 (login ++ b':' ∷ password))

-- `AuthToken`
abbrev pub auth_token : Text → Builder → Builder
auth_token = auth (codes "Token")

-- the loop over the parameters, two at a time
unfoldable pub add_queries : List Text → Url → Url
unfolding add_query
add_queries (key ∷ value ∷ rest) url = add_queries rest (add_query key value url)
add_queries rest url = url

module _ (boost : Boost) where
  -- the loop over the headers, two at a time
  unfoldable pub add_headers : List Text → Message → Message
  add_headers (key ∷ value ∷ rest) m = add_headers rest (set_header boost key value m)
  add_headers rest m = m

  abbrev pub with_connection : Bool → Message → Message
  with_connection keep_alive m =
      if not keep_alive then set_header boost (codes "Connection") (codes "Close") m else m

  -- `SetContent`, and the content type of JSON
  unfoldable pub with_data : Text → Bool → Message → Message
  unfolding set_content set_content_type
  with_data content json m =
      let filled = set_content boost content true m in
      if json then set_content_type boost (codes "application/json") [] filled else filled

  -- the request before its content: `Request(method_, url_)`, the parameters and the headers
  abbrev pub started : Builder → Request
  started b = record blank_request {
    method = b.method;
    url = add_queries b.parameters (init boost b.url true false blank);
    message = with_connection b.keep_alive (add_headers b.headers blank_request.message);
  }

  -- `operator()`
  unfoldable pub build : Builder → Request
  unfolding add_queries add_headers with_data
  build b =
      let r = started b in
      if not (equal b.data_ [])
      then record r { message = with_data b.data_ b.json r.message }
      else record r { form_parts = b.form_parts }
