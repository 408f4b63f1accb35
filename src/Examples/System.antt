-- ===== src/Examples/System.antt =====
-- webcc/server.cc: one connection of a server with one worker, from its request to the end.
use mathlib.Core.Path.{subst}
use devops_workshop.Prelude.{
  ◌<◌, sym, arith, ◌≡◌, refl, ap, Option, none, some, List, [], ◌∷◌, ◌++◌, true, false,
  if◌then◌else◌,
}
use devops_workshop.Bytes.{Text, codes, equal, next_line}
use devops_workshop.Http.Request.{set_url}
use devops_workshop.Parser.State.{init, finish}
use devops_workshop.Parser.HeaderLines.{parse_headers, headers_loop, take_line, parse_start_line}
use devops_workshop.Parser.Body.{parse_fixed_content}
use devops_workshop.Parser.Feed.{parse, parse_content}
use devops_workshop.Rest.Service.{Service}
use devops_workshop.Rest.Manager.{ServiceItem}
use devops_workshop.FaceDetection.Routes.{images}
use devops_workshop.Server.Queue.{push, pop_or_wait, clear}
use devops_workshop.Server.Workers.{Worker, waiting, handling, serving, Server, AllWaiting}
use devops_workshop.Server.Workers as Workers
use devops_workshop.Server.Workers.Invariant.{total}
use devops_workshop.Server.Connection.{
  Connection, Action, nothing, accepted_connection, on_read, start,
}
use devops_workshop.Server.Pool.{contains, close_each}
use devops_workshop.Server.System.{
  System, initial, perform, accept_into, accept, read, inner, close_all, Reach, begin, next,
}
use devops_workshop.Server.System.Tokens.{queued, handles, tokens}
use devops_workshop.Server.System.Ownership.{queued_ready, handled_alone, pool_tracks}
use devops_workshop.Server.System.Closing.{all_closed-closed}
use devops_workshop.Examples.AsciiBoost.{ascii_boost, split_compress}
use devops_workshop.Examples.Parser.{small_env}
use devops_workshop.Examples.Rest.{prefix_regex, small_library}

abbrev one_worker : List Worker
one_worker = waiting ∷ []

abbrev bound : List (ServiceItem prefix_regex Service)
bound = images ascii_boost prefix_regex small_library 5

abbrev request_text : Text
request_text = codes "GET /images HTTP/1.1" ++ 13 ∷ 10 ∷ 13 ∷ 10 ∷ []

abbrev result_of : Option (Connection × Action) → Connection × Action
result_of none = (accepted_connection, nothing)
result_of (some r) = r

abbrev opened : System
opened = perform 0 (start accepted_connection) (accept_into (initial one_worker))

abbrev Reached : System → Type 0
Reached = Reach small_env prefix_regex bound one_worker

opened-Reach : Reached opened
opened-Reach = next begin (accept refl)

abbrev after_read : Connection × Action
after_read =
    result_of (on_read small_env (codes "now") none request_text (start accepted_connection).0)

abbrev enqueued : System
enqueued = perform 0 after_read opened

reads : on_read small_env (codes "now") none request_text (opened.connections 0) ≡ some after_read
unfolding on_read parse parse_headers headers_loop next_line take_line parse_start_line
    split_compress equal parse_content parse_fixed_content finish perform start init set_url
reads = refl

enqueued-Reach : Reached enqueued
unfolding perform start
enqueued-Reach =
    next opened-Reach (read 0 (codes "now") none request_text after_read refl refl tt reads)

abbrev waiting_server : Server
waiting_server = record (Workers.started one_worker) { queue = some 0 ∷ []; enqueued = 0 ∷ [] }

enqueued_server : enqueued.server ≡ waiting_server
unfolding on_read parse parse_headers headers_loop next_line take_line parse_start_line
    split_compress equal parse_content parse_fixed_content finish perform start init set_url push
enqueued_server = refl

pool_tracks_example :
    (tokens enqueued 0 ≡ (if contains 0 enqueued.pool then 1 else 0))
    × ((enqueued.connections 0).is_open ≡ contains 0 enqueued.pool)
pool_tracks_example =
    pool_tracks small_env prefix_regex bound (refl, tt) enqueued-Reach
      (ap (λ (q : Server). q.phase) enqueued_server) 0

in_queue : 0 < queued 0 enqueued.server.queue
unfolding queued
in_queue = subst (λ (q : Server). 0 < queued 0 q.queue) (sym enqueued_server) (omega arith)

queued_ready_example :
    (queued 0 enqueued.server.queue ≡ 1)
    × ((enqueued.connections 0).parser.finished ≡ true)
    × ((enqueued.connections 0).is_open ≡ true)
    × (contains 0 enqueued.pool ≡ true)
    × (enqueued.pending 0 ≡ none)
    × (total (handles 0) enqueued.server.workers ≡ 0)
queued_ready_example =
    queued_ready small_env prefix_regex bound (refl, tt) enqueued-Reach
      (ap (λ (q : Server). q.phase) enqueued_server) 0 in_queue

abbrev taken : System
taken = record enqueued {
  server = record (enqueued.server) {
    queue = [];
    workers = handling 0 ∷ [];
    taken = enqueued.server.taken ++ 0 ∷ [];
  };
}

taken-Reach : Reached taken
unfolding pop_or_wait
taken-Reach = next enqueued-Reach (
    inner taken.server
      (Workers.take_connection [] [] 0 [] (ap (λ (q : Server). q.workers) enqueued_server)
        (ap (λ (q : Server). pop_or_wait q.queue) enqueued_server))
      tt)

handled_alone_example :
    ((taken.connections 0).parser.finished ≡ true)
    × (taken.pending 0 ≡ none)
    × (queued 0 taken.server.queue ≡ 0)
    × (total (handles 0) ([] ++ []) ≡ 0)
handled_alone_example =
    handled_alone small_env prefix_regex bound (refl, tt) taken-Reach [] [] 0 refl

abbrev bad_text : Text
bad_text = codes "hello" ++ 13 ∷ 10 ∷ []

abbrev after_bad : Connection × Action
after_bad = result_of (on_read small_env (codes "now") none bad_text (start accepted_connection).0)

abbrev refusing : System
refusing = perform 0 after_bad opened

abbrev on_server : Server → System
on_server t = record opened { server = t }

abbrev leaving_server : Server
leaving_server = record (Workers.started one_worker) {
  workers = Workers.leaving ∷ [];
  phase = Workers.joining;
}

abbrev ended_server : Server
ended_server = record leaving_server { queue = push none []; workers = Workers.stopped ∷ [] }

ended-Reach : Reached (on_server ended_server)
unfolding perform start push clear pop_or_wait
ended-Reach =
    next
      (next
        (next (next opened-Reach (inner _ (Workers.clear_queue refl) tt))
          (inner _ (Workers.push_null refl) tt))
        (inner leaving_server (Workers.take_null [] [] [] refl refl) tt))
      (inner ended_server (Workers.leave [] [] refl) tt)

abbrev closed : System
closed = record (on_server ended_server) {
  connections = close_each opened.pool opened.connections;
  pool = [];
  all_closed = true;
}

closed-Reach : Reached closed
unfolding perform start
closed-Reach = next ended-Reach (close_all refl (refl, tt) refl)

all_closed-closed_example : (closed.connections 0).is_open ≡ false
all_closed-closed_example =
    all_closed-closed small_env prefix_regex bound (refl, tt) closed-Reach refl 0
