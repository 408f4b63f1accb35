-- ===== src/Examples/Server.antt =====
-- webcc/request_handler.cc: two workers, two connections, and a server that stops.
use devops_workshop.Server.Listening.{
  Port, Acceptor, new_server, run, await_stop, async_accept, start_workers, run_context, Event,
  accepted, refused, signal, on_events, begun,
}
use devops_workshop.Server.Listening.Accepts.{run-new_server, successes, on_events-started}
use devops_workshop.Prelude.{
  ◌+◌, true, false, ◌<◌, ◌≡◌, ◌⊎◌, refl, List, [], ◌∷◌, ◌++◌, All, none, some,
}
use devops_workshop.Server.Queue.{push, pop_or_wait, clear}
use devops_workshop.Server.Workers.{
  Worker, waiting, handling, stopped, joining, Server, started, AllWaiting, Step, enqueue,
  take_connection, done, clear_queue, push_null, Reach, start, next,
}
use devops_workshop.Server.Workers.Shutdown.{remaining, stopping-decreases, stopping-no_deadlock}
use devops_workshop.Server.Workers.Order.{connections, serving_in_order}

abbrev two_workers : List Worker
two_workers = waiting ∷ waiting ∷ []

two_workers-AllWaiting : AllWaiting two_workers
two_workers-AllWaiting = (refl, (refl, tt))

abbrev queued : Server
queued = record (started two_workers) {
  queue = push (some 8) (push (some 7) []);
  enqueued = 7 ∷ 8 ∷ [];
}

queued-Reach : Reach two_workers queued
queued-Reach = next (next start (enqueue 7 refl)) (enqueue 8 refl)

abbrev busy : Server
busy = record queued { queue = some 8 ∷ []; workers = handling 7 ∷ waiting ∷ []; taken = 7 ∷ [] }

busy-Reach : Reach two_workers busy
unfolding push pop_or_wait
busy-Reach = next queued-Reach (take_connection [] (waiting ∷ []) 7 (some 8 ∷ []) refl refl)

serving_in_order_example : busy.enqueued ≡ busy.taken ++ connections busy.queue
serving_in_order_example = serving_in_order busy-Reach refl

abbrev stopping : Server
stopping = record busy { queue = push none (clear busy.queue); phase = joining }

stopping-Reach : Reach two_workers stopping
stopping-Reach = next (next busy-Reach (clear_queue refl)) (push_null refl)

stopping-no_deadlock_example :
    All (λ w. w ≡ stopped) stopping.workers ⊎ ((t : Server) × Step stopping t)
stopping-no_deadlock_example = stopping-no_deadlock two_workers-AllWaiting stopping-Reach refl

abbrev calmer : Server
calmer = record stopping { workers = waiting ∷ waiting ∷ [] }

finishes : Step stopping calmer
finishes = done [] (waiting ∷ []) 7 refl

stopping-decreases_example :
    (calmer.phase ≡ joining) × (remaining calmer.workers < remaining stopping.workers)
stopping-decreases_example = stopping-decreases two_workers-AllWaiting stopping-Reach refl finishes

-- a port that another server has bound
abbrev taken_port : Port
taken_port = record { opens = true; sets_option = true; binds = false; listens = true }

abbrev unbound : Acceptor
unbound = record { is_open = true; bound = false; listening = false }

taken_port_opened : new_server taken_port ≡ some unbound
unfolding new_server
taken_port_opened = refl

abbrev some_events : List Event
some_events = accepted ∷ refused ∷ accepted ∷ signal ∷ accepted ∷ []

run-new_server_example :
    (run unbound ≡ await_stop ∷ async_accept ∷ start_workers ∷ run_context ∷ [])
    × (unbound.listening ≡ false)
    × ((on_events some_events (begun unbound)).started ≡ 2)
run-new_server_example = run-new_server taken_port unbound some_events taken_port_opened

on_events-started_example :
    (on_events some_events (begun unbound)).started ≡ successes some_events + 0
unfolding begun
on_events-started_example = on_events-started some_events (begun unbound) refl refl
