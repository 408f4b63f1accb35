-- ===== src/Server/System.antt =====
-- webcc/server.cc with connection.cc, connection_pool.cc and request_handler.cc: the server as a whole.
-- The handlers of `Connection` and `Server` run on one thread, interleaved with the workers.
-- Connections are numbered in the order in which they are accepted.
pub mod Tokens
pub mod Invariant
pub mod Handlers
pub mod Steps
pub mod Ownership
pub mod Answers
pub mod Closing
use devops_workshop.Http.Response.{Response}
use devops_workshop.Parser.State.{Env}
use devops_workshop.Rest.Service.{Service}
use devops_workshop.Rest.Manager.{Regex, ServiceItem}
use devops_workshop.Rest.Handler.{handle_connection}
use devops_workshop.Server.Queue.{push}
use devops_workshop.Server.Workers.{
  Worker, waiting, handling, stopped, serving, joining, Server, started,
}
use devops_workshop.Server.Workers as Workers
use devops_workshop.Server.Connection.{
  Connection, Action, do_read, do_write, enqueue, close, nothing, SocketError, aborted,
  accepted_connection, close_socket, on_read, on_write,
}
use devops_workshop.Server.Connection as Connection
use devops_workshop.Server.Pool.{insert, erase, update, close_each}
use devops_workshop.Prelude.{
  ℕ, suc, ◌≡◌, Bool, true, false, Option, none, some, List, [], ◌∷◌, ◌++◌, All,
}
use devops_workshop.Bytes.{Text}

-- What a connection has asked of its socket, and has not been told of: `async_read_some` or
-- `async_write`.
pub data Operation : Type 0 where
  reading writing : Operation

pub record System : Type 0 where
  pub server : Server
  pub connections : ℕ → Connection
  pub pending : ℕ → Option Operation
  pub pool : List ℕ
  pub accepted : ℕ
  pub all_closed : Bool

-- a number that no connection has yet
abbrev pub no_connection : Connection
no_connection = close_socket accepted_connection

abbrev pub initial : List Worker → System
initial ws = record {
  server = started ws;
  connections = λ c. no_connection;
  pending = λ c. none;
  pool = [];
  accepted = 0;
  all_closed = false;
}

-- The call by which a handler of connection `c` ends.
unfoldable pub perform : ℕ → Connection × Action → System → System
unfolding push erase
perform c (k, do_read) s = record s {
  connections = update c k s.connections;
  pending = update c (some reading) s.pending;
}
perform c (k, do_write) s = record s {
  connections = update c k s.connections;
  pending = update c (some writing) s.pending;
}
perform c (k, enqueue) s = record s {
  connections = update c k s.connections;
  pending = update c none s.pending;
  server = record (s.server) {
    queue = push (some c) s.server.queue;
    enqueued = s.server.enqueued ++ c ∷ [];
  };
}
perform c (k, close) s = record s {
  connections = update c (close_socket k) s.connections;
  pending = update c none s.pending;
  pool = erase c s.pool;
}
perform c (k, nothing) s = record s {
  connections = update c k s.connections;
  pending = update c none s.pending;
}

-- What Asio documents: an operation is aborted only where its socket has been closed.
abbrev pub CanFail : Option SocketError → Connection → Type 0
CanFail (some aborted) k = k.is_open ≡ false
CanFail _ k = Unit

-- The steps of the workers and of `Stop` that touch no connection.
abbrev pub IsInner : {s t : Server} → Workers.Step s t → Type 0
IsInner (Workers.enqueue c e) = ⊥
IsInner (Workers.done ws vs c e) = ⊥
IsInner _ = Unit

abbrev pub accept_into : System → System
accept_into s = record s { pool = insert s.accepted s.pool; accepted = suc s.accepted }

module _ (env : Env) (regex : Regex) (items : List (ServiceItem regex Service)) where
  pub data Step (s : System) : System → Type 0 where
    -- the handler of `DoAccept`, with `ConnectionPool::Start`
    accept :
        s.server.phase ≡ serving
        → Step s (perform s.accepted (Connection.start accepted_connection) (accept_into s))
    -- `OnRead`
    read :
        (c : ℕ) (timestamp : Text) (error : Option SocketError) (arrived : Text)
        (result : Connection × Action)
        → s.server.phase ≡ serving
        → s.pending c ≡ some reading
        → CanFail error (s.connections c)
        → on_read env timestamp error arrived (s.connections c) ≡ some result
        → Step s (perform c result s)
    -- `OnWrite`
    write :
        (c : ℕ) (error : Option SocketError)
        → s.server.phase ≡ serving
        → s.pending c ≡ some writing
        → CanFail error (s.connections c)
        → Step s (perform c (on_write env error (s.connections c)) s)
    -- `HandleConnection` of a worker, up to `async_write`; behind it the worker only returns
    handle :
        (ws vs : List Worker) (c : ℕ) (timestamp : Text) (unset : ℕ) (r : Response)
        → s.server.workers ≡ ws ++ handling c ∷ vs
        → handle_connection env.boost regex timestamp unset items (s.connections c).parser.request
          ≡ some r
        → Step s (
            perform c
              (record (s.connections c) { response = some r }, do_write)
              (record s { server = record (s.server) { workers = ws ++ waiting ∷ vs } }))
    inner :
        (t : Server) (move : Workers.Step s.server t)
        → IsInner move
        → Step s (record s { server = t })
    -- `CloseAll`, behind `RequestHandler::Stop`
    close_all :
        s.server.phase ≡ joining
        → All (λ w. w ≡ stopped) s.server.workers
        → s.all_closed ≡ false
        → Step s (record s {
          connections = close_each s.pool s.connections;
          pool = [];
          all_closed = true;
        })

  -- The states that a server with such workers can get into.
  pub data Reach (ws : List Worker) : System → Type 0 where
    begin : Reach ws (initial ws)
    next : {s t : System} → Reach ws s → Step s t → Reach ws t
