-- ===== src/Http/Message.antt =====
-- webcc/message.h and message.cc: `Message`. The payload is the list of its buffers.
use devops_workshop.Boost.{Boost}
use devops_workshop.Numbers as Numbers
use devops_workshop.Http.Globals.{crlf, invalid_length}
use devops_workshop.Http.Headers.{Headers}
use devops_workshop.Http.Headers as Fields
use devops_workshop.Http.Content.{ContentType, no_content_type}
use devops_workshop.Http.Form.{header_buffers, body_buffer}
use devops_workshop.Prelude.{
  ℕ, Bool, true, false, not, Option, none, some, List, [], ◌∷◌, ◌++◌, if◌then◌else◌, length,
}
use devops_workshop.Bytes.{Text, codes, equal, cut_on}

pub record Message : Type 0 where
  pub start_line : Text
  pub content : Text
  pub content_type : ContentType
  pub content_length : ℕ
  pub headers : Headers
  pub payload : List Text

-- the default constructor
abbrev pub blank_message : Message
blank_message = record {
  start_line = [];
  content = [];
  content_type = no_content_type;
  content_length = invalid_length;
  headers = [];
  payload = [];
}

pub data ContentEncoding : Type 0 where
  unknown gzip deflate : ContentEncoding

abbrev pub keep_alive_value : Boost → Text × Bool → Bool
keep_alive_value boost (connection, existed) =
    if not existed
    then true
    else if boost.iequals connection (codes "Keep-Alive")
    then true
    else false

-- `IsConnectionKeepAlive`
unfoldable pub is_connection_keep_alive : Boost → Message → Bool
is_connection_keep_alive boost m =
    keep_alive_value boost (Fields.get boost (codes "Connection") m.headers)

-- `SetHeader`, both overloads
abbrev pub set_header : Boost → Text → Text → Message → Message
set_header boost key value m = record m { headers = Fields.set boost key value m.headers }

abbrev pub encoding_of : Text → ContentEncoding
encoding_of encoding =
    if equal encoding (codes "gzip")
    then gzip
    else if equal encoding (codes "deflate")
    then deflate
    else unknown

-- `GetContentEncoding`
unfoldable pub get_content_encoding : Boost → Message → ContentEncoding
get_content_encoding boost m = encoding_of (Fields.get boost (codes "Content-Encoding") m.headers).0

-- `find(_) != npos`
abbrev pub found : Option (Text × Text) → Bool
found none = false
found (some _) = true

-- `AcceptEncodingGzip`
unfoldable pub accept_encoding_gzip : Boost → Message → Bool
unfolding cut_on
accept_encoding_gzip boost m =
    found (cut_on (codes "gzip") (Fields.get boost (codes "Accept-Encoding") m.headers).0)

-- `SetContentType` with a media type and a charset
unfoldable pub set_content_type : Boost → Text → Text → Message → Message
unfolding equal
set_content_type boost media_type charset m =
    if equal charset []
    then set_header boost (codes "Content-Type") media_type m
    else set_header boost (codes "Content-Type") (media_type ++ (codes ";charset=" ++ charset)) m

-- `SetContentLength`
unfoldable pub set_content_length : Boost → ℕ → Message → Message
set_content_length boost n m =
    set_header boost (codes "Content-Length") (Numbers.to_string n)
      (record m { content_length = n })

-- `SetContent`
unfoldable pub set_content : Boost → Text → Bool → Message → Message
unfolding set_content_length
set_content boost content set_length m =
    let filled = record m { content = content } in
    if set_length then set_content_length boost (length content) filled else filled

-- `Message::Prepare`, on a start line that is not empty
unfoldable pub prepare : Message → Message
prepare m = record m {
  payload = m.start_line ∷ crlf ∷ (header_buffers m.headers ++ (crlf ∷ body_buffer m.content));
}

abbrev pub joined_buffers : List Text → Text
joined_buffers [] = []
joined_buffers (b ∷ bs) = b ++ joined_buffers bs

-- `CopyPayload`
unfoldable pub copy_payload : Message → Text
copy_payload m = joined_buffers m.payload
