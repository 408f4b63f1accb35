-- ===== src/Server/Connection.antt =====
-- webcc/connection.h and connection.cc: `Connection`. A handler ends by one call that goes on: an
-- operation that it starts on the socket, `Enqueue`, or `Close` of the pool; that call is its result.
use devops_workshop.Http.Status
use devops_workshop.Http.Message.{is_connection_keep_alive}
use devops_workshop.Http.Request.{blank_request}
use devops_workshop.Http.Response.{Response, new_response}
use devops_workshop.Parser.State.{
  Parser, Env, of_requests, Outcome, ok, reject, throws, spent, new_parser, init,
}
use devops_workshop.Parser.Feed.{parse}
use devops_workshop.Rest.Handler.{send_response}
use devops_workshop.Prelude.{Bool, true, false, Option, none, some, if◌then◌else◌}
use devops_workshop.Bytes.{Text}

-- The request is that of the parser, which fills it. `is_open` is the socket.
pub record Connection : Type 0 where
  pub parser : Parser
  pub response : Option Response
  pub is_open : Bool

-- the constructor, with the socket that was accepted
abbrev pub accepted_connection : Connection
accepted_connection = record { parser = new_parser; response = none; is_open = true }

-- `close` is `pool_->Close(shared_from_this())`.
pub data Action : Type 0 where
  do_read do_write enqueue close nothing : Action

-- `error_code`: `operation_aborted`, or any other error
pub data SocketError : Type 0 where
  aborted failed : SocketError

-- `Start`
unfoldable pub start : Connection → Connection × Action
unfolding init
start c = (record c { parser = init blank_request c.parser }, do_read)

-- `Close`
abbrev pub close_socket : Connection → Connection
close_socket c = record c { is_open = false }

abbrev pub error_action : SocketError → Action
error_action aborted = nothing
error_action failed = close

module _ (env : Env) where
  -- `SendResponse`, on a response
  unfoldable pub respond : Text → Response → Connection → Connection × Action
  respond timestamp r c = (
    record c { response = some (send_response env.boost timestamp c.parser.request r) },
    do_write,
  )

  abbrev pub after_parse : Text → Outcome → Connection → Option (Connection × Action)
  after_parse timestamp (ok p) c =
      some (record c { parser = p }, if p.finished then enqueue else do_read)
  after_parse timestamp (reject p) c =
      some (respond timestamp (new_response Status.bad_request) (record c { parser = p }))
  after_parse timestamp throws c = none
  after_parse timestamp spent c = none

  -- `OnRead`; `none` where the parser throws, or does not end
  unfoldable pub on_read :
      Text → Option SocketError → Text → Connection → Option (Connection × Action)
  unfolding parse respond
  on_read timestamp none arrived c =
      after_parse timestamp (parse (of_requests env) arrived c.parser) c
  on_read timestamp (some e) arrived c = some (c, error_action e)

  -- `OnWrite`; shutting the socket down leaves no trace in the model
  unfoldable pub on_write : Option SocketError → Connection → Connection × Action
  unfolding start is_connection_keep_alive
  on_write none c =
      if is_connection_keep_alive env.boost c.parser.request.message then start c else (c, close)
  on_write (some e) c = (c, error_action e)
