-- ===== src/Server/System/Answers.antt =====
-- webcc/server.cc: what is written to a client answers the request that came from it.
use devops_workshop.Http.Status
use devops_workshop.Http.Response.{Response, new_response}
use devops_workshop.Parser.State.{Parser, of_requests, Env, reject}
use devops_workshop.Parser.Feed.{parse}
use devops_workshop.Rest.Service.{Service}
use devops_workshop.Rest.Manager.{Regex, ServiceItem}
use devops_workshop.Rest.Handler.{send_response, handle_connection}
use devops_workshop.Server.Workers.{Worker, handling}
use devops_workshop.Server.Connection.{Connection}
use devops_workshop.Server.Connection as Connection
use devops_workshop.Server.System.{reading, writing, System, Reach}
use devops_workshop.Prelude.{ℕ, true, ◌≡◌, some, List, ◌∷◌, ◌++◌}
use devops_workshop.Bytes.{Text}

module _ (env : Env) (regex : Regex) (items : List (ServiceItem regex Service))
    (all : List Worker) where
  -- How a connection comes by a response, where its parser is such.
  pub data Answers (c : ℕ) (parser : Parser) : Response → Type 0 where
    -- It waited for data, and `Parse` refused what arrived: the answer is that the request is bad.
    refused :
        {s : System} (timestamp arrived : Text)
        → Reach env regex items all s
        → s.pending c ≡ some reading
        → parse (of_requests env) arrived (s.connections c).parser ≡ reject parser
        → Answers c parser
            (send_response env.boost timestamp parser.request (new_response Status.bad_request))
    -- A worker handled it, its request was complete, and the answer is what `HandleConnection` makes
    -- of this request.
    handled :
        {s : System} (ws vs : List Worker) (timestamp : Text) (unset : ℕ) (r : Response)
        → Reach env regex items all s
        → s.server.workers ≡ ws ++ handling c ∷ vs
        → (s.connections c).parser ≡ parser
        → parser.finished ≡ true
        → handle_connection env.boost regex timestamp unset items parser.request ≡ some r
        → Answers c parser r

  -- The connection of this number has a response that it came by in one of these ways.
  abbrev pub HasAnswer : ℕ → Connection → Type 0
  HasAnswer c k = (r : Response) × (k.response ≡ some r) × Answers c k.parser r

  abbrev WhileWriting : System → ℕ → Type 0
  WhileWriting s d = s.pending d ≡ some writing → HasAnswer d (s.connections d)
