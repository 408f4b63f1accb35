-- ===== src/Server/KeepAlive.antt =====
-- webcc/connection.cc: a request that is complete is enqueued, and a connection that is kept reads the
-- next one as it read the first.
use mathlib.Core.Path.{subst}
use devops_workshop.Numbers.{pos}
use devops_workshop.Http.Message.{copy_payload, is_connection_keep_alive}
use devops_workshop.Http.Request.{Request, blank_request, prepare_request}
use devops_workshop.Http.Response.{Response}
use devops_workshop.Parser.State.{
  Parser, Env, Outcome, ok, reject, throws, spent, of_requests, new_parser, init,
}
use devops_workshop.Parser.Feed.{parse}
use devops_workshop.Parser.Feed.Expected.{Seen, seen}
use devops_workshop.Parser.Feed.Fields.{HasNoParts}
use devops_workshop.Parser.Feed.Prepared.{IsWritable, parse-prepare_request}
use devops_workshop.Parser.Feed.WholeContent.{IsRead}
use devops_workshop.Server.Connection.{
  Connection, Action, enqueue, do_read, close, accepted_connection, on_read, on_write, start,
  after_parse,
}
use devops_workshop.Url.Address.{blank}
use devops_workshop.Prelude.{◌≡◌, refl, sym, ap, ◌∙◌, true, Option, none, some, if◌then◌else◌}
use devops_workshop.Bytes.{Text}

abbrev handed_on : Connection → Option (Connection × Action)
handed_on c = some (c, enqueue)

pub started_fresh : (start accepted_connection).0.parser ≡ new_parser
unfolding start init
started_fresh = refl

-- A parser that has read a message without parts is as new for the next one.
init_fresh :
    (p : Parser) (s : Seen)
    → seen p ≡ s
    → s.0 ≡ pos 200
    → HasNoParts p
    → init blank_request p ≡ new_parser
unfolding init
init_fresh p s e u (step, part, forms) = λ i. record new_parser {
  status = (ap (λ (x : Seen). x.0) e ∙ u) i;
  step = step i;
  part = part i;
}

module _ (env : Env) where
  -- A connection whose parser is as new hands on what is read in one call.
  pub on_read-IsRead :
      (timestamp text content : Text) (s : Seen) (k : Connection)
      → k.parser ≡ new_parser
      → IsRead s content (parse (of_requests env) text new_parser)
      → (c : Connection) × (on_read env timestamp none text k ≡ some (c, enqueue))
        × (seen c.parser ≡ s)
        × (c.parser.request.message.content ≡ content)
        × HasNoParts c.parser
  unfolding on_read
  on_read-IsRead timestamp text content s k fresh h =
      go (parse (of_requests env) text k.parser)
        (subst (λ p. IsRead s content (parse (of_requests env) text p)) (sym fresh) h)
    where
      go :
          (o : Outcome)
          → IsRead s content o
          → (c : Connection) × (after_parse env timestamp o k ≡ some (c, enqueue))
            × (seen c.parser ≡ s)
            × (c.parser.request.message.content ≡ content)
            × HasNoParts c.parser
      go (ok q) (f, e, d, n) = (
        record k { parser = q },
        ap (λ b. some (record k { parser = q }, if b then enqueue else do_read)) f,
        e,
        d,
        n,
      )
      go (reject q) h = absurd h
      go throws h = absurd h
      go spent h = absurd h

  -- what a writable request gives when it is read
  abbrev look : Request → Seen
  look r = (pos 200, (record blank { path = r.url.path; query = r.url.query }, r.method))

  -- what a connection that was enqueued holds
  read_parser :
      (uuid timestamp : Text) (r r' : Request) (c : Connection)
      → prepare_request env.boost uuid r ≡ some r'
      → IsWritable env r
      → on_read env timestamp none (copy_payload r'.message) (start accepted_connection).0
        ≡ some (c, enqueue)
      → (seen c.parser ≡ look r) × HasNoParts c.parser
  read_parser uuid timestamp r r' c e w h =
      let (d, read, s, _, n) =
        on_read-IsRead timestamp (copy_payload r'.message) r.message.content (look r)
          (start accepted_connection).0 started_fresh (parse-prepare_request env uuid r r' e w) in
      subst (λ (k : Connection). (seen k.parser ≡ look r) × HasNoParts k.parser)
        (same d c (sym read ∙ h)) (s, n)
    where
      same : (a b : Connection) → handed_on a ≡ handed_on b → a ≡ b
      same a b e = cc

  on_write-kept :
      (k : Connection)
      → is_connection_keep_alive env.boost k.parser.request.message ≡ true
      → on_write env none k ≡ start k
  unfolding on_write
  on_write-kept k h = ap (λ b. if b then start k else (k, close)) h

  -- A connection has read a first writable request in one call of `OnRead` and has written a response
  -- to it, whatever that is. If the request keeps the connection, then `OnWrite` goes on to read, and a
  -- second writable request is read in one call of `OnRead` and enqueued, with its own method, path
  -- and content.
  pub on_write-on_read :
      (uuid timestamp later : Text) (r r' q q' : Request) (c : Connection) (a : Response)
      → prepare_request env.boost uuid r ≡ some r'
      → IsWritable env r
      → prepare_request env.boost uuid q ≡ some q'
      → IsWritable env q
      → on_read env timestamp none (copy_payload r'.message) (start accepted_connection).0
        ≡ some (c, enqueue)
      → is_connection_keep_alive env.boost c.parser.request.message ≡ true
      → (d : Connection) × (on_write env none (record c { response = some a }) ≡ (d, do_read))
        × (e : Connection) × (on_read env later none (copy_payload q'.message) d
            ≡ some (e, enqueue))
        × (e.parser.request.method ≡ q.method)
        × (e.parser.request.url.path ≡ q.url.path)
        × (e.parser.request.message.content ≡ q.message.content)
  unfolding start
  on_write-on_read uuid timestamp later r r' q q' c a f w g v h k =
      let (s, n) = read_parser uuid timestamp r r' c f w h in
      let d = (start (record c { response = some a })).0 in
      let (e, read, t, content, _) =
        on_read-IsRead later (copy_payload q'.message) q.message.content (look q) d
          (init_fresh c.parser (look r) s refl n) (parse-prepare_request env uuid q q' g v) in
      (
        d,
        on_write-kept (record c { response = some a }) k,
        e,
        read,
        ap (λ (x : Seen). x.1.1) t,
        ap (λ (x : Seen). x.1.0.path) t,
        content,
      )
