-- ===== src/Server/System/Handlers.antt =====
-- webcc/connection.cc: how `OnRead` and `OnWrite` of an open connection end.
use mathlib.Core.Path.{subst}
use devops_workshop.Http.Message.{is_connection_keep_alive}
use devops_workshop.Parser.State.{of_requests, Env, Outcome, ok, reject, throws, spent}
use devops_workshop.Parser.Feed.{parse}
use devops_workshop.Server.Connection.{
  Connection, Action, do_read, do_write, enqueue, close, nothing, SocketError, aborted, failed,
  after_parse, respond, on_read, on_write,
}
use devops_workshop.Server.Connection as Connection
use devops_workshop.Server.System.{CanFail}
use devops_workshop.Prelude.{
  ◌≡◌, ◌≢◌, sym, ◌∙◌, inl, inr, true, Option, none, some, if◌then◌else◌, Bool-cases,
}
use devops_workshop.Bytes.{Text}

-- The socket stays open, the connection goes on in some way, and only a complete request is enqueued.
abbrev pub GoesOn : Connection × Action → Type 0
GoesOn (k, a) = (k.is_open ≡ true) × (a ≢ nothing) × (a ≡ enqueue → k.parser.finished ≡ true)

go_on :
    {result : Connection × Action} (k : Connection) (a : Action)
    → GoesOn (k, a)
    → some (k, a) ≡ some result
    → GoesOn result
go_on {result} k a g e = let same : (k, a) ≡ result = cc e in subst GoesOn same g

module _ (env : Env) where
  parsed-GoesOn :
      (timestamp : Text) (o : Outcome) (c : Connection) (result : Connection × Action)
      → c.is_open ≡ true
      → after_parse env timestamp o c ≡ some result
      → GoesOn result
  unfolding respond
  parsed-GoesOn timestamp (ok p) c result o e = elim (Bool-cases p.finished) [
    | inl done ↦
        go_on (record c { parser = p }) enqueue (o, (λ x. cc), λ x. done)
          ((λ i. some (record c { parser = p }, if sym done i then enqueue else do_read)) ∙ e)
    | inr more ↦
        go_on (record c { parser = p }) do_read (o, (λ x. cc), λ x. absurd (cc))
          ((λ i. some (record c { parser = p }, if sym more i then enqueue else do_read)) ∙ e)
  ]
  parsed-GoesOn timestamp (reject p) c result o e =
      go_on _ do_write (o, (λ x. cc), λ x. absurd (cc)) e
  parsed-GoesOn timestamp throws c result o e = absurd (cc)
  parsed-GoesOn timestamp spent c result o e = absurd (cc)

  pub on_read-GoesOn :
      (timestamp : Text) (error : Option SocketError) (arrived : Text) (c : Connection)
      (result : Connection × Action)
      → c.is_open ≡ true
      → CanFail error c
      → on_read env timestamp error arrived c ≡ some result
      → GoesOn result
  unfolding on_read
  on_read-GoesOn timestamp none arrived c result o f e =
      parsed-GoesOn timestamp (parse (of_requests env) arrived c.parser) c result o e
  on_read-GoesOn timestamp (some aborted) arrived c result o f e = absurd (cc)
  on_read-GoesOn timestamp (some failed) arrived c result o f e =
      go_on c close (o, (λ x. cc), λ x. absurd (cc)) e

  pub on_write-GoesOn :
      (error : Option SocketError) (c : Connection)
      → c.is_open ≡ true
      → CanFail error c
      → GoesOn (on_write env error c)
  unfolding on_write Connection.start
  on_write-GoesOn none c o f =
      elim (Bool-cases (is_connection_keep_alive env.boost c.parser.request.message)) [
        | inl keep ↦ rw keep (o, (λ x. cc), λ x. absurd (cc))
        | inr end_ ↦ rw end_ (o, (λ x. cc), λ x. absurd (cc))
      ]
  on_write-GoesOn (some aborted) c o f = absurd (cc)
  on_write-GoesOn (some failed) c o f = (o, (λ x. cc), λ x. absurd (cc))
