-- ===== src/Client.antt =====
-- webcc/client.h and client.cc: `Client`, one call of `Request` on the events of its socket and timer.
pub mod Verdict
pub mod Returns
pub mod Pieces
pub mod Key
pub mod Pool
pub mod Session
pub mod Builder
pub mod Shortcuts
pub mod Failure
use devops_workshop.Http.Message.{is_connection_keep_alive}
use devops_workshop.Parser.State.{
  Parser, Env, Outcome, ok, reject, throws, spent, new_parser, init_response, of_responses,
}
use devops_workshop.Parser.Feed.{parse}
use devops_workshop.Prelude.{Bool, true, false, List, [], ◌∷◌, if◌then◌else◌}
use devops_workshop.Bytes.{Text, equal}

-- `Error`
pub data Error : Type 0 where
  no_error schema_error host_resolve_error endpoint_connect_error : Error
  socket_read_error socket_write_error http_error handshake_error file_io_error : Error

abbrev pub is_ok : Error → Bool
is_ok no_error = true
is_ok _ = false

-- The response is that of the parser, which fills it. What only the socket and the timer read is left
-- out: the buffer and its size, the timeout, and whether a certificate is verified.
pub record Client : Type 0 where
  pub parser : Parser
  pub closed : Bool
  pub timer_canceled : Bool
  pub timed_out : Bool
  pub error : Error

-- the constructor
abbrev pub new_client : Client
new_client = record {
  parser = new_parser;
  closed = false;
  timer_canceled = false;
  timed_out = false;
  error = no_error;
}

-- An event while a client waits for its response: the handler of a read runs on the data that was
-- read or on an error, or the deadline of the timer passes.
pub data Event : Type 0 where
  piece : Text → Event
  broken deadline : Event

-- What a call of `Request` meets: the host resolves, a connection is made, the request is written,
-- and the events that follow.
pub record Exchange : Type 0 where
  pub resolves : Bool
  pub connects : Bool
  pub writes : Bool
  pub events : List Event

-- The call returns, whether it succeeds being whether the error is `kNoError`; an exception leaves it;
-- or it still waits when the events are over.
pub data Reading : Type 0 where
  returns escapes waits : Client → Reading

-- `Close`
abbrev pub close : Client → Client
close c = record c { closed = true }

-- `CancelTimer`
abbrev pub cancel_timer : Client → Client
cancel_timer c = record c { timer_canceled = true }

abbrev pub fail : Error → Client → Reading
fail e c = returns (record c { error = e })

-- the members as `Request` sets them first
unfoldable pub restarted : Client → Client
unfolding init_response
restarted c = record {
  parser = init_response c.parser;
  closed = false;
  timer_canceled = false;
  timed_out = false;
  error = no_error;
}

module _ (env : Env) where
  -- the end of the handler of `DoReadResponse`, on a response that is complete
  abbrev pub keep_or_close : Client → Client
  keep_or_close c =
      if is_connection_keep_alive env.boost c.parser.request.message then c else close c

  -- that handler behind `Parse`; `loop` is the next `DoReadResponse`
  abbrev pub after_parse : (Client → Reading) → Outcome → Client → Reading
  after_parse loop (ok p) c =
      let d = record c { parser = p } in
      let rest = loop d in
      if p.finished then returns (keep_or_close d) else if c.closed then returns d else rest
  after_parse loop (reject p) c = fail http_error (close (record c { parser = p }))
  after_parse loop throws c = escapes c
  after_parse loop spent c = waits c

  -- that handler on some data, or on none
  abbrev pub on_piece : (Client → Reading) → Text → Client → Reading
  on_piece loop arrived c =
      if equal arrived []
      then fail socket_read_error (close c)
      else after_parse loop (parse (of_responses env) arrived c.parser) c

  -- `OnTimer` on a deadline that has passed, and the handler of the read that it cancels
  abbrev pub on_deadline : Client → Reading
  on_deadline c = fail socket_read_error (close (cancel_timer (record c { timed_out = true })))

  -- `ReadResponse`, with `DoReadResponse` and `OnTimer`; a timer that was canceled does not expire
  unfoldable pub read_response : List Event → Client → Reading
  unfolding equal
  read_response [] c = waits c
  read_response (piece arrived ∷ events) c =
      on_piece (read_response events) arrived (cancel_timer c)
  read_response (broken ∷ events) c = fail socket_read_error (close (cancel_timer c))
  read_response (deadline ∷ events) c =
      let rest = read_response events c in if c.timer_canceled then rest else on_deadline c

  -- `WriteReqeust`, and what follows it in `Request`
  abbrev pub write_request : Exchange → Client → Reading
  write_request x c =
      if x.writes then read_response x.events c else fail socket_write_error (close c)

  -- `Connect` and `DoConnect`, and what follows them
  abbrev pub connect_first : Exchange → Client → Reading
  connect_first x c =
      if x.resolves
      then if x.connects then write_request x c else fail endpoint_connect_error (close c)
      else fail host_resolve_error c

  -- `Request`; the flag is `connect`
  unfoldable pub request : Bool → Exchange → Client → Reading
  unfolding read_response restarted
  request true x c = connect_first x (restarted c)
  request false x c = write_request x (restarted c)
