-- ===== src/Server/Listening.antt =====
-- webcc/server.cc: the constructor of `Server`, `Run`, `DoAccept` and `DoAwaitStop`, as far as the
-- acceptor goes. What the system does with the port is a parameter.
pub mod Accepts
use devops_workshop.Prelude.{
  ℕ, zero, suc, Bool, true, false, not, Option, none, some, List, [], ◌∷◌, if◌then◌else◌,
}

-- Whether `open`, `bind` and `listen` succeed, and whether `set_option` returns without an exception.
pub record Port : Type 0 where
  pub opens : Bool
  pub sets_option : Bool
  pub binds : Bool
  pub listens : Bool

pub record Acceptor : Type 0 where
  pub is_open : Bool
  pub bound : Bool
  pub listening : Bool

-- The constructor; `none` is an exception. The acceptor of a server that could not be bound stays open.
unfoldable pub new_server : Port → Option Acceptor
new_server port =
    if not port.opens
    then some (record { is_open = false; bound = false; listening = false })
    else if not port.sets_option
    then none
    else if not port.binds
    then some (record { is_open = true; bound = false; listening = false })
    else if not port.listens
    then some (record { is_open = true; bound = true; listening = false })
    else some (record { is_open = true; bound = true; listening = true })

-- the calls of `Run`
pub data Call : Type 0 where
  await_stop async_accept start_workers run_context : Call

-- `Run`
unfoldable pub run : Acceptor → List Call
run a = if not a.is_open then [] else await_stop ∷ async_accept ∷ start_workers ∷ run_context ∷ []

-- What happens to a running server: an accept succeeds or fails, or a signal stops it.
pub data Event : Type 0 where
  accepted refused signal : Event

-- the acceptor, the connections started, and whether an accept is outstanding
pub record Accepting : Type 0 where
  pub acceptor : Acceptor
  pub started : ℕ
  pub outstanding : Bool

-- the handler of `DoAccept`, `ok` being that there is no error
unfoldable pub on_accept : Bool → Accepting → Accepting
on_accept ok s =
    if not s.outstanding
    then s
    else if not s.acceptor.is_open
    then record s { outstanding = false }
    else if ok
    then record s { started = suc s.started }
    else s

-- the handler of `DoAwaitStop`: `close` of the acceptor
unfoldable pub on_signal : Accepting → Accepting
on_signal s = record s { acceptor = record (s.acceptor) { is_open = false; listening = false } }

abbrev pub on_event : Event → Accepting → Accepting
on_event accepted s = on_accept true s
on_event refused s = on_accept false s
on_event signal s = on_signal s

unfoldable pub on_events : List Event → Accepting → Accepting
unfolding on_accept on_signal
on_events [] s = s
on_events (e ∷ es) s = on_events es (on_event e s)

abbrev pub accepts : List Call → Bool
accepts [] = false
accepts (async_accept ∷ cs) = true
accepts (_ ∷ cs) = accepts cs

-- The server as `Run` leaves it to the events: an accept is outstanding if it has called
-- `async_accept`.
unfoldable pub begun : Acceptor → Accepting
unfolding run
begun a = record { acceptor = a; started = 0; outstanding = accepts (run a) }
