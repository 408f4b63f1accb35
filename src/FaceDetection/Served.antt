-- ===== src/FaceDetection/Served.antt =====
-- webcc/server.cc and FaceDetectionService.cpp: a run of the whole server that answers a POST to /images.
use devops_workshop.Numbers.{pos}
use devops_workshop.FaceDetection.Libraries.{Library}
use devops_workshop.FaceDetection.{post}
use devops_workshop.FaceDetection.Routes.{images}
use devops_workshop.FaceDetection.Exchange.{post_exchanged}
use devops_workshop.Http.Message.{copy_payload}
use devops_workshop.Http.Request.{Request, prepare_request}
use devops_workshop.Http.Response.{Response}
use devops_workshop.Rest.Service.{RestResponse, unset_response}
use devops_workshop.Rest.Manager.{Regex}
use devops_workshop.Rest.Handler.{handle_connection}
use devops_workshop.Rest.SentFields.{IsValue}
use devops_workshop.Parser.State.{Env, of_responses, new_parser}
use devops_workshop.Parser.HeaderLines.StatusLine.{reported}
use devops_workshop.Parser.Feed.{parse}
use devops_workshop.Parser.Feed.Prepared.{IsWritable}
use devops_workshop.Parser.Feed.WholeContent.{IsRead}
use devops_workshop.Server.Queue.{push, pop_or_wait}
use devops_workshop.Server.Workers.{Worker, waiting, handling, Server}
use devops_workshop.Server.Workers as Workers
use devops_workshop.Server.Connection.{
  Connection, do_write, enqueue, accepted_connection, on_read, start,
}
use devops_workshop.Server.System.{
  System, Step, reading, writing, initial, perform, accept_into, accept, read, handle, inner, Reach,
  begin, next,
}
use devops_workshop.Url.Address.{blank}
use devops_workshop.Prelude.{ℕ, ◌≡◌, refl, none, some, List, [], ◌∷◌, ◌++◌, true, length}
use devops_workshop.Bytes.{Text, codes}

module _ (env : Env) (regex : Regex) (lib : Library) (cascade : lib.Cascade)
    (ws : List Worker) where
  abbrev Reached : System → Type 0
  Reached = Reach env regex (images env.boost regex lib cascade) (waiting ∷ ws)

  -- The server has accepted one connection, which reads.
  abbrev opened : System
  opened = perform 0 (start accepted_connection) (accept_into (initial (waiting ∷ ws)))

  -- Then the connection has enqueued itself, and then the first worker has taken it.
  abbrev enqueued : Connection → System
  enqueued c = perform 0 (c, enqueue) opened

  abbrev taken : Connection → System
  taken c = record (enqueued c) {
    server = record ((enqueued c).server) {
      queue = [];
      workers = handling 0 ∷ ws;
      taken = (enqueued c).server.taken ++ 0 ∷ [];
    };
  }

  -- Then the worker has handled it, and it writes.
  abbrev writes : Connection → Response → System
  writes c a =
      perform 0 (record c { response = some a }, do_write)
        (record (taken c) { server = record ((taken c).server) { workers = waiting ∷ ws } })

  -- Any number of steps of the server.
  pub data Steps (s : System) : System → Type 0 where
    stay : Steps s s
    more :
        {t u : System}
        → Steps s t
        → Step env regex (images env.boost regex lib cascade) t u
        → Steps s u

  opened-Reach : Reached opened
  unfolding perform start
  opened-Reach = next begin (accept refl)

  opened-read :
      (timestamp text : Text) (c : Connection)
      → on_read env timestamp none text (start accepted_connection).0 ≡ some (c, enqueue)
      → Step env regex (images env.boost regex lib cascade) opened (enqueued c)
  unfolding perform start
  opened-read timestamp text c r = read 0 timestamp none text (c, enqueue) refl refl tt r

  enqueued-Steps :
      (timestamp : Text) (unset : ℕ) (c : Connection) (a : Response)
      → handle_connection env.boost regex timestamp unset
          (images env.boost regex lib cascade)
          c.parser.request
        ≡ some a
      → Steps (enqueued c) (writes c a)
  unfolding perform start push pop_or_wait
  enqueued-Steps timestamp unset c a h =
      more (more stay (inner (taken c).server (Workers.take_connection [] ws 0 [] refl refl) tt))
        (handle [] ws 0 timestamp unset a refl h)

  -- A server with at least one worker can get, from its start, into a state in which its first
  -- connection waits for data. A POST to /images, as `Prepare` makes it ready and `CopyPayload` writes
  -- it, that arrives there in one piece is read in one call of `OnRead`, with which the connection
  -- enqueues itself. From there the server can get into a state in which this connection, with the
  -- request that it has read, writes the response that `HandleConnection` makes of it; and that response
  -- is read back, in one call of `Parse`, with the status of the service's answer to the content of the
  -- POST, as `Status` reports it, and with the answer's content. The request is writable, the service
  -- answers its content without an exception, the timestamp can stand in a field, and memory for the
  -- answer can be reserved.
  pub post_served :
      (uuid timestamp : Text) (unset : ℕ) (r r' : Request) (rest : RestResponse)
      → prepare_request env.boost uuid r ≡ some r'
      → IsWritable env r
      → r.method ≡ codes "POST"
      → r.url.path ≡ codes "images"
      → post lib cascade r.message.content (unset_response unset) ≡ some rest
      → IsValue env.boost timestamp
      → env.can_reserve (length rest.content) ≡ true
      → (s : System) × Reached s
        × (s.pending 0 ≡ some reading)
        × (c : Connection) × (on_read env timestamp none (copy_payload r'.message) (s.connections 0)
            ≡ some (c, enqueue))
        × Step env regex (images env.boost regex lib cascade) s (perform 0 (c, enqueue) s)
        × (t : System) × Steps (perform 0 (c, enqueue) s) t
        × (t.pending 0 ≡ some writing)
        × ((t.connections 0).parser ≡ c.parser)
        × (a : Response) × ((t.connections 0).response ≡ some a)
        × (handle_connection env.boost regex timestamp unset
              (images env.boost regex lib cascade)
              c.parser.request
            ≡ some a)
        × IsRead
            (pos (reported rest.status), (blank, []))
            rest.content
            (parse (of_responses env) (copy_payload a.message) new_parser)
  unfolding perform start
  post_served uuid timestamp unset r r' rest e w m p o v k =
      let (c, read_, a, handled, answer) =
        post_exchanged env regex lib cascade uuid timestamp unset r r' rest e w m p o v k in
      (
        opened,
        opened-Reach,
        refl,
        c,
        read_,
        opened-read timestamp (copy_payload r'.message) c read_,
        writes c a,
        enqueued-Steps timestamp unset c a handled,
        refl,
        refl,
        a,
        refl,
        handled,
        answer,
      )
