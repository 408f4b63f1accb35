-- ===== src/Examples/Client.antt =====
-- webcc/client.cc and response_parser.cc: calls of a client on concrete events.
use devops_workshop.Prelude.{◌≡◌, refl, true, false, [], ◌∷◌, ◌++◌, arith}
use devops_workshop.Bytes.{Text, codes, equal, next_line, cut}
use devops_workshop.Numbers.{stoul, stoi, pos}
use devops_workshop.Http.Globals.{crlf, split2}
use devops_workshop.Http.Message.{is_connection_keep_alive}
use devops_workshop.Http.Headers.{set, get}
use devops_workshop.Parser.State.{Parser, ok, new_parser, finish, of_responses}
use devops_workshop.Parser.HeaderLines.{
  parse_headers, headers_loop, take_line, parse_header_line, parse_status_line,
}
use devops_workshop.Parser.HeaderLines.Frame.{push}
use devops_workshop.Parser.Body.{parse_fixed_content}
use devops_workshop.Parser.Body.Overrun.{fixed_overrun}
use devops_workshop.Parser.Feed.{parse, parse_content}
use devops_workshop.Parser.Feed.Pieces.{IsPlain}
use devops_workshop.Client.{
  Client, new_client, piece, broken, Exchange, Reading, returns, escapes, waits, read_response,
  request,
}
use devops_workshop.Client.Verdict.{Verdict, request-Verdict}
use devops_workshop.Client.Returns.{IsOver, request-IsOver}
use devops_workshop.Client.Pieces.{tidy, read_response-append}
use devops_workshop.Examples.AsciiBoost.{ascii_boost, split_compress, trim}
use devops_workshop.Examples.Parser.{small_env, state_of}

abbrev two_of_five : Parser
two_of_five = record new_parser {
  content_length = 2;
  content_length_parsed = true;
  pending = codes "a";
}

fixed_overrun_example :
    (q : Parser) × (parse_fixed_content ascii_boost (codes "bcde") two_of_five ≡ ok q)
    × (q.finished ≡ true)
    × (q.request.message.content ≡ codes "abcde")
    × (q.request.message.content_length ≡ 2)
fixed_overrun_example =
    fixed_overrun ascii_boost (codes "bcde") two_of_five (refl, refl) (omega arith) (omega arith)

-- the answer of a server, in two pieces
abbrev first_part : Text
first_part = codes "HTTP/1.1 200 OK" ++ (crlf ++ codes "Content-Len")

abbrev second_part : Text
second_part = codes "gth: 2" ++ (crlf ++ (crlf ++ codes "ok"))

abbrev pub answered : Exchange
answered = record {
  resolves = true;
  connects = true;
  writes = true;
  events = piece (first_part ++ second_part) ∷ broken ∷ [];
}

abbrev client_of : Reading → Client
client_of (returns c) = c
client_of (escapes c) = c
client_of (waits c) = c

abbrev pub served : Client
served = client_of (request small_env true answered new_client)

-- The client has the response, and keeps the connection.
status_test : served.parser.status ≡ pos 200
unfolding request read_response parse parse_headers headers_loop next_line take_line
    parse_status_line parse_header_line split_compress equal stoi stoul cut set parse_content
    parse_fixed_content finish split2 trim is_connection_keep_alive get
status_test = refl

content_test : served.parser.request.message.content ≡ codes "ok"
unfolding request read_response parse parse_headers headers_loop next_line take_line
    parse_status_line parse_header_line split_compress equal stoi stoul cut set parse_content
    parse_fixed_content finish split2 trim is_connection_keep_alive get
content_test = refl

open_test : served.closed ≡ false
unfolding request read_response parse parse_headers headers_loop next_line take_line
    parse_status_line parse_header_line split_compress equal stoi stoul cut set parse_content
    parse_fixed_content finish split2 trim is_connection_keep_alive get
open_test = refl

request-Verdict_example : Verdict small_env (request small_env true answered new_client)
request-Verdict_example = request-Verdict small_env true answered new_client

request-IsOver_example : IsOver (request small_env true answered new_client)
request-IsOver_example = request-IsOver small_env true answered new_client tt

abbrev half_read : Parser
half_read = state_of (parse_headers (of_responses small_env) (push first_part new_parser))

reads : parse_headers (of_responses small_env) (push first_part new_parser) ≡ ok half_read
unfolding parse_headers headers_loop next_line take_line parse_status_line split_compress equal stoi
reads = refl

reads_on : parse (of_responses small_env) first_part new_parser ≡ ok half_read
unfolding parse parse_headers headers_loop next_line take_line parse_status_line split_compress
    equal stoi
reads_on = refl

half_read-IsPlain : IsPlain half_read
unfolding parse_headers headers_loop next_line take_line parse_status_line split_compress equal stoi
half_read-IsPlain = record { no_chunks = refl; no_parts = refl }

unfinished : half_read.finished ≡ false
unfolding parse_headers headers_loop next_line take_line parse_status_line split_compress equal stoi
unfinished = refl

read_response-append_example :
    tidy (read_response small_env (piece (first_part ++ second_part) ∷ []) new_client)
    ≡ tidy (read_response small_env (piece first_part ∷ piece second_part ∷ []) new_client)
read_response-append_example =
    read_response-append small_env b'H' b'g'
      (codes "TTP/1.1 200 OK" ++ (crlf ++ codes "Content-Len"))
      (codes "th: 2" ++ (crlf ++ (crlf ++ codes "ok"))) [] new_client half_read half_read refl refl
      reads half_read-IsPlain reads_on unfinished
