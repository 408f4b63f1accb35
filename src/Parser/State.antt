-- ===== src/Parser/State.antt =====
-- webcc/parser.h, request_parser.h and response_parser.h: the members of `Parser` and of its two
-- classes, and what a call of a parsing function comes to.
use devops_workshop.Boost.{Boost}
use devops_workshop.Http.Globals.{invalid_length}
use devops_workshop.Http.Form.{FormPart}
use devops_workshop.Http.Message.{Message, set_content}
use devops_workshop.Numbers.{ℤ, pos}
use devops_workshop.Http.Request.{Request, blank_request}
use devops_workshop.Prelude.{ℕ, ◌<◌, ◌≡◌, Bool, true, false, Option, none, [], ◌∷◌}
use devops_workshop.Bytes.{Text}

-- The class of a parser, whose virtual functions run: `RequestParser` or `ResponseParser`.
pub data Kind : Type 0 where
  of_request of_response : Kind

-- `RequestParser::Step`
pub data Step : Type 0 where
  start boundary_parsed headers_parsed ended : Step

-- The members of `Parser`, of `RequestParser` and of `ResponseParser`. The message is that of the request,
-- for a response too; the status is the response's.
pub record Parser : Type 0 where
  pub request : Request
  pub status : ℤ
  pub pending : Text
  pub content_length : ℕ
  pub content : Text
  pub start_line_parsed : Bool
  pub content_length_parsed : Bool
  pub header_ended : Bool
  pub chunked : Bool
  pub chunk_size : ℕ
  pub finished : Bool
  pub step : Step
  pub part : Option FormPart

-- What a call does not change: the text functions of boost, the class of the parser, and whether
-- memory of a given size can be reserved. A string has no room for `npos` characters.
pub record Env : Type 0 where
  pub boost : Boost
  pub kind : Kind
  pub can_reserve : ℕ → Bool
  pub reserve_limit : (n : ℕ) → can_reserve n ≡ true → n < invalid_length

abbrev of_kind : Kind → Env → Env
of_kind kind env = record {
  boost = env.boost;
  kind = kind;
  can_reserve = env.can_reserve;
  reserve_limit = env.reserve_limit;
}

-- the environment of a `RequestParser`
abbrev pub of_requests : Env → Env
of_requests = of_kind of_request

-- the environment of a `ResponseParser`
abbrev pub of_responses : Env → Env
of_responses = of_kind of_response

-- `true` and `false` with the state they leave, an exception that escapes, and a loop that is not
-- over when its fuel is.
pub data Outcome : Type 0 where
  ok : Parser → Outcome
  reject : Parser → Outcome
  throws : Outcome
  spent : Outcome

infixl 5 ◌>>=◌
abbrev pub ◌>>=◌ : Outcome → (Parser → Outcome) → Outcome
ok p >>= f = f p
reject p >>= f = reject p
throws >>= f = throws
spent >>= f = spent

-- `Parser::Parser` and `RequestParser::RequestParser`
abbrev pub new_parser : Parser
new_parser = record {
  request = blank_request;
  status = pos 200;
  pending = [];
  content_length = invalid_length;
  content = [];
  start_line_parsed = false;
  content_length_parsed = false;
  header_ended = false;
  chunked = false;
  chunk_size = invalid_length;
  finished = false;
  step = start;
  part = none;
}

-- `Parser::Reset`
unfoldable pub reset : Parser → Parser
reset p = record p {
  pending = [];
  content = [];
  content_length = invalid_length;
  start_line_parsed = false;
  content_length_parsed = false;
  header_ended = false;
  chunked = false;
  chunk_size = invalid_length;
  finished = false;
}

-- `RequestParser::Init`, with `Parser::Init`
unfoldable pub init : Request → Parser → Parser
unfolding reset
init request p = record (reset p) { request = request }

-- `ResponseParser::Init`, on a new response: every member that a `ResponseParser` has is as new
unfoldable pub init_response : Parser → Parser
unfolding reset
init_response p = record (reset p) {
  request = blank_request;
  status = pos 200;
  step = start;
  part = none;
}

abbrev pub with_message : (Message → Message) → Parser → Parser
with_message f p = record p { request = record (p.request) { message = f p.request.message } }

abbrev pub store_content : Boost → Text → Parser → Parser
store_content boost [] p = p
store_content boost (c ∷ s) p =
    record (with_message
      (λ m. set_content boost (c ∷ s) false (record m { content_length = p.content_length })) p) {
        content = [];
      }

-- `Finish`, built without gzip: the content is handed over as it is, also if it is compressed. It
-- always returns `true`.
unfoldable pub finish : Boost → Parser → Outcome
unfolding set_content
finish boost p = ok (store_content boost p.content (record p { finished = true }))
