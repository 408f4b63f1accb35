-- ===== src/Parser/HeaderLines.antt =====
-- webcc/parser.cc, request_parser.cc and response_parser.cc: the start line and the header fields.
pub mod Frame
pub mod Progress
pub mod Pieces
pub mod Written
pub mod StatusLine
use devops_workshop.Numbers.{stoul, ℤ, stoi}
use devops_workshop.Http.Globals.{split2}
use devops_workshop.Http.Content.{ContentType, content_type, valid}
use devops_workshop.Http.Message.{set_header}
use devops_workshop.Http.Request.{set_url}
use devops_workshop.Parser.State.{
  Parser, Kind, of_request, of_response, Env, Outcome, ok, reject, spent, ◌>>=◌, with_message,
}
use devops_workshop.Prelude.{
  ℕ, zero, suc, true, false, not, ◌||◌, Option, none, some, List, [], ◌∷◌, if◌then◌else◌, length,
}
use devops_workshop.Bytes.{Text, codes, equal, cut, next_line, strip}

-- After a syntax error nothing has been erased.
abbrev pub unerased : Text → Outcome → Outcome
unerased pending (reject p) = reject (record p { pending = pending })
unerased pending o = o

module _ (env : Env) where
  -- the method and the target of a line of three words; the version is ignored
  abbrev pub take_words : List Text → Parser → Outcome
  take_words (method ∷ url ∷ version ∷ []) p =
      ok (record p { request = set_url env.boost url (record (p.request) { method = method }) })
  take_words words p = reject p

  -- `RequestParser::ParseStartLine`
  unfoldable pub parse_start_line : Text → Parser → Outcome
  parse_start_line line p = take_words (env.boost.split_spaces line) p

  abbrev pub take_status : Option ℤ → Parser → Outcome
  take_status none p = reject p
  take_status (some n) p = ok (record p { status = n })

  -- the second of three words or more
  abbrev pub take_status_words : List Text → Parser → Outcome
  take_status_words (version ∷ status ∷ reason ∷ rest) p = take_status (stoi status) p
  take_status_words words p = reject p

  -- `ResponseParser::ParseStartLine`
  unfoldable pub parse_status_line : Text → Parser → Outcome
  parse_status_line line p = take_status_words (env.boost.split_spaces line) p

  -- the virtual `ParseStartLine`
  abbrev pub start_line_of : Kind → Text → Parser → Outcome
  start_line_of of_request = parse_start_line
  start_line_of of_response = parse_status_line

  abbrev pub keep_header : Text → Text → Parser → Outcome
  keep_header name value p = ok (with_message (set_header env.boost name value) p)

  abbrev pub take_length : Option ℕ → Text → Text → Parser → Outcome
  take_length none name value p = reject p
  take_length (some n) name value p =
      let q = record p { content_length = n } in
      if env.can_reserve n then keep_header name value q else reject q

  abbrev pub take_type : ContentType → Text → Text → Parser → Outcome
  take_type c name value p =
      if valid c
      then keep_header name value (with_message (λ m. record m { content_type = c }) p)
      else reject p

  -- the branches on the name of the field
  abbrev pub take_header : Text → Text → Parser → Outcome
  take_header name value p =
      if env.boost.iequals name (codes "Content-Length")
      then take_length (stoul 10 value) name value (record p { content_length_parsed = true })
      else if env.boost.iequals name (codes "Content-Type")
      then take_type (content_type env.boost value) name value p
      else if env.boost.iequals name (codes "Transfer-Encoding")
      then keep_header name value
          (record p { chunked = p.chunked || equal value (codes "chunked") })
      else keep_header name value p

  abbrev pub take_field : Option (Text × Text) → Parser → Outcome
  take_field none p = reject p
  take_field (some (name, value)) p = take_header name value p

  -- `ParseHeaderLine`
  unfoldable pub parse_header_line : Text → Parser → Outcome
  parse_header_line line p = take_field (split2 env.boost line b':') p

  -- a line that is not empty, in the loop of `ParseHeaders`
  unfoldable pub take_line : Text → Parser → Outcome
  take_line line p =
      if not p.start_line_parsed
      then start_line_of env.kind line (
          with_message (λ m. record m { start_line = line })
            (record p { start_line_parsed = true }))
      else parse_header_line line p

  -- one round of that loop, on the line that comes next; `loop` is the rest of it
  abbrev pub round : (Parser → Outcome) → Option (Text × Text) → Parser → Outcome
  round loop none p = ok p
  round loop (some ([], rest)) p = ok (record p { pending = rest; header_ended = true })
  round loop (some (c ∷ line, rest)) p = take_line (c ∷ line) (record p { pending = rest }) >>= loop

  -- The loop of `ParseHeaders`. A line that is read leaves `pending` at once; the source erases all
  -- of them behind the loop.
  unfoldable pub headers_loop : ℕ → Parser → Outcome
  headers_loop zero p = spent
  headers_loop (suc fuel) p = round (headers_loop fuel) (next_line p.pending) p

  -- `ParseHeaders`: each line takes two bytes at least
  unfoldable pub parse_headers : Parser → Outcome
  unfolding headers_loop
  parse_headers p = unerased p.pending (headers_loop (suc (length p.pending)) p)
