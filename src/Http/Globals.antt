-- ===== src/Http/Globals.antt =====
-- webcc/globals.h, globals.cc and the table of response.cc: names, codes and fixed texts.
use devops_workshop.Http.Status
use devops_workshop.Boost.{Boost}
use devops_workshop.Prelude.{ℕ, ◌-◌, ◌^◌, Bool, Option, none, some, [], ◌∷◌, ◌==◌, if◌then◌else◌}
use devops_workshop.Bytes.{Text, codes, equal, cut}

-- `std::string::npos`, which is `kInvalidLength`, and the modulus of `std::size_t`
abbrev pub invalid_length : ℕ
invalid_length = 2 ^ 64 - 1

abbrev pub size_mod : ℕ
size_mod = 2 ^ 64

abbrev pub crlf : Text
crlf = 13 ∷ 10 ∷ []

-- `status_strings::ToString`
unfoldable pub status_line : ℕ → Text
status_line status =
    if status == Status.ok
    then codes "HTTP/1.1 200 OK"
    else if status == Status.created
    then codes "HTTP/1.1 201 Created"
    else if status == Status.accepted
    then codes "HTTP/1.1 202 Accepted"
    else if status == Status.no_content
    then codes "HTTP/1.1 204 No Content"
    else if status == Status.not_modified
    then codes "HTTP/1.1 304 Not Modified"
    else if status == Status.bad_request
    then codes "HTTP/1.1 400 Bad Request"
    else if status == Status.not_found
    then codes "HTTP/1.1 404 Not Found"
    else if status == Status.internal_server_error
    then codes "HTTP/1.1 500 Internal Server Error"
    else if status == Status.not_implemented
    then codes "HTTP/1.1 501 Not Implemented"
    else if status == Status.service_unavailable
    then codes "HTTP/1.1 503 Service Unavailable"
    else codes "HTTP/1.1 501 Not Implemented"

-- `UserAgent`, with WEBCC_VERSION
abbrev pub user_agent : Text
user_agent = codes "Webcc/0.1.0"

-- the table of `InitMap`
unfoldable pub extension_type : Text → Option Text
unfolding equal
extension_type e =
    if equal e (codes "gif")
    then some (codes "image/gif")
    else if equal e (codes "htm")
    then some (codes "text/html")
    else if equal e (codes "html")
    then some (codes "text/html")
    else if equal e (codes "jpg")
    then some (codes "image/jpeg")
    else if equal e (codes "jpeg")
    then some (codes "image/jpeg")
    else if equal e (codes "png")
    then some (codes "image/png")
    else if equal e (codes "txt")
    then some (codes "text/plain")
    else if equal e []
    then some []
    else none

abbrev type_or : Option Text → Bool → Text
type_or (some t) plain = t
type_or none plain = if plain then codes "text/plain" else []

-- `media_types::FromExtension`
unfoldable pub from_extension : Text → Bool → Text
unfolding extension_type
from_extension e default_to_plain_text = type_or (extension_type e) default_to_plain_text

abbrev pub trimmed : Boost → Option (Text × Text) → Option (Text × Text)
trimmed boost none = none
trimmed boost (some (a, b)) = some (boost.trim a, boost.trim b)

-- `Split2` of utility.cc: `none` for `false`
unfoldable pub split2 : Boost → Text → ℕ → Option (Text × Text)
split2 boost str token = trimmed boost (cut token str)
