-- ===== src/Examples/Session.antt =====
-- webcc/client_session.cc and request_builder.cc on concrete requests.
use devops_workshop.Prelude.{◌≡◌, refl, true, false, some, [], ◌∷◌}
use devops_workshop.Bytes.{codes, equal, next_line, cut}
use devops_workshop.Http.Globals.{split2}
use devops_workshop.Http.Headers as Headers
use devops_workshop.Http.Headers.{set, find, has}
use devops_workshop.Http.Message.{is_connection_keep_alive}
use devops_workshop.Http.Request.{Request, blank_request}
use devops_workshop.Url.Address.{blank}
use devops_workshop.Client.{Exchange, new_client}
use devops_workshop.Client.{request, read_response}
use devops_workshop.Parser.State.{finish}
use devops_workshop.Parser.HeaderLines.{
  parse_headers, headers_loop, take_line, parse_header_line, parse_status_line,
}
use devops_workshop.Parser.Body.{parse_fixed_content}
use devops_workshop.Parser.Feed.{parse, parse_content}
use devops_workshop.Numbers.{stoi, stoul}
use devops_workshop.Client.Key.{Key, key_of, equivalent, less, less_both, text_less}
use devops_workshop.Client.Pool.{Pool, AllOpen, get}
use devops_workshop.Client.Session.{responded, send_with, settle, send}
use devops_workshop.Client.Session.Open.{send-AllOpen}
use devops_workshop.Client.Session.Retry.{send-stale}
use devops_workshop.Client.Session.Pooled.{is_some, send-Pooled}
use devops_workshop.Examples.AsciiBoost.{ascii_boost, split_compress, trim}
use devops_workshop.Examples.Parser.{small_env}
use devops_workshop.Examples.Client.{answered, served}

abbrev local : Request
local = record blank_request {
  url = record blank { scheme = codes "http"; host = codes "localhost"; port = codes "8080" };
}

abbrev pooled : Pool
pooled = (key_of local.url, new_client) ∷ []

abbrev stale : Exchange
stale = record answered { writes = false }

send-AllOpen_example : AllOpen (send small_env local stale answered pooled).1
send-AllOpen_example = send-AllOpen small_env local stale answered pooled (refl, tt)

found : get (key_of local.url) pooled ≡ some new_client
unfolding get equivalent less text_less
found = refl

send-stale_example :
    (send small_env local stale answered pooled).0 ≡ (send small_env local answered stale []).0
send-stale_example = send-stale small_env local stale answered stale pooled new_client found refl

responds :
    (send small_env local answered stale []).0
    ≡ responded served.parser.request.message served.parser.status
unfolding send send_with settle get request read_response parse parse_headers headers_loop next_line
    take_line parse_status_line parse_header_line split_compress equal stoi stoul cut set
    parse_content parse_fixed_content finish split2 trim is_connection_keep_alive Headers.get
responds = refl

send-Pooled_example :
    is_some (get (key_of local.url) (send small_env local answered stale []).1)
    ≡ is_connection_keep_alive ascii_boost served.parser.request.message
send-Pooled_example =
    send-Pooled small_env local answered stale [] served.parser.request.message served.parser.status
      tt responds

abbrev other_key : Key
other_key = record { scheme = codes "https"; host = codes "a"; port = [] }

less_both_example :
    (less (key_of local.url) other_key ≡ true) × (less other_key (key_of local.url) ≡ true)
unfolding text_less
less_both_example = less_both (key_of local.url) other_key refl refl
