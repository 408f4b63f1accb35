-- ===== src/Parser/Feed.antt =====
-- webcc/parser.cc and request_parser.cc: `Parse`, called once for each piece of data that arrives.
pub mod Pieces
pub mod Ends
pub mod Expected
pub mod Fields
pub mod WholeContent
pub mod Whole
pub mod ReadResponse
pub mod ReadRequest
pub mod SetFields
pub mod FormFields
pub mod FormContent
pub mod ReadForm
pub mod Prepared
use devops_workshop.Parser.State.{Parser, Kind, of_request, of_response, Env, Outcome, ok, ◌>>=◌}
use devops_workshop.Parser.HeaderLines.{parse_headers}
use devops_workshop.Parser.Body.{parse_fixed_content, parse_chunked_content}
use devops_workshop.Parser.Multipart.{parse_multipart_content}
use devops_workshop.Prelude.{
  ℕ, zero, suc, ◌+◌, Bool, true, false, none, some, [], ◌++◌, if◌then◌else◌, length,
}
use devops_workshop.Bytes.{Text, equal, cut, strip}

module _ (env : Env) where
  -- more rounds of the multipart loop than there are bytes
  abbrev pub multipart_fuel : Text → Parser → ℕ
  multipart_fuel arrived p = suc (length p.pending + length arrived)

  -- `Parser::ParseContent` knows no parts; `RequestParser` overrides it.
  abbrev pub takes_parts : Kind → Parser → Bool
  takes_parts of_request p = p.request.message.content_type.multipart
  takes_parts of_response p = false

  -- `RequestParser::ParseContent`, or `Parser::ParseContent`
  unfoldable pub parse_content : Text → Parser → Outcome
  parse_content arrived p =
      if p.chunked
      then parse_chunked_content env.boost arrived p
      else if takes_parts env.kind p
      then parse_multipart_content env.boost (multipart_fuel arrived p) arrived p
      else parse_fixed_content env.boost arrived p

  abbrev pub content_if_ended : Parser → Outcome
  content_if_ended p = if p.header_ended then parse_content [] p else ok p

  -- `Parser::Parse`
  unfoldable pub parse : Text → Parser → Outcome
  unfolding parse_content parse_headers
  parse arrived p =
      if p.header_ended
      then parse_content arrived p
      else parse_headers env (record p { pending = p.pending ++ arrived }) >>= content_if_ended
