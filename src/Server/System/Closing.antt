-- ===== src/Server/System/Closing.antt =====
-- webcc/server.cc: the end of `DoAwaitStop`.
use devops_workshop.Parser.State.{Env}
use devops_workshop.Rest.Service.{Service}
use devops_workshop.Rest.Manager.{Regex, ServiceItem}
use devops_workshop.Server.Workers.{Worker, serving, AllWaiting}
use devops_workshop.Server.Connection.{
  Connection, Action, do_read, do_write, enqueue, close, nothing, accepted_connection, on_write,
}
use devops_workshop.Server.Connection as Connection
use devops_workshop.Server.Pool.{contains}
use devops_workshop.Server.System.{
  System, perform, Step, accept, read, write, handle, inner, close_all, Reach, begin, next,
}
use devops_workshop.Server.System.Tokens.{inside-inner}
use devops_workshop.Server.System.Steps.{Reach-Holds}
use devops_workshop.Prelude.{ℕ, ◌≡◌, ◌≢◌, refl, sym, ap, ◌∙◌, true, false, List, []}

-- Behind `CloseAll` the server does not serve, and its pool is empty.
record Closed (s : System) : Type 0 where
  not_serving : s.server.phase ≢ serving
  no_pool : s.pool ≡ []

abbrev WhenClosed : System → Type 0
WhenClosed s = s.all_closed ≡ true → Closed s

perform-all_closed :
    (c : ℕ) (k : Connection) (a : Action) (s : System)
    → (perform c (k, a) s).all_closed ≡ s.all_closed
unfolding perform
perform-all_closed c k do_read s = refl
perform-all_closed c k do_write s = refl
perform-all_closed c k enqueue s = refl
perform-all_closed c k close s = refl
perform-all_closed c k nothing s = refl

-- A handler runs only while the server serves.
serving-WhenClosed :
    (s t : System)
    → s.server.phase ≡ serving
    → t.all_closed ≡ s.all_closed
    → WhenClosed s
    → WhenClosed t
serving-WhenClosed s t x e h c = absurd ((h (sym e ∙ c)).not_serving x)

module _ (env : Env) (regex : Regex) (items : List (ServiceItem regex Service)) where
  Step-WhenClosed : {s t : System} → Step env regex items s t → WhenClosed s → WhenClosed t
  unfolding perform Connection.start
  Step-WhenClosed {s} (accept x) h =
      serving-WhenClosed s (perform s.accepted (Connection.start accepted_connection) _) x refl h
  Step-WhenClosed {s} (read c timestamp error arrived (k, a) x p f e) h =
      serving-WhenClosed s (perform c (k, a) s) x (perform-all_closed c k a s) h
  Step-WhenClosed {s} (write c error x p f) h =
      let (k, a) = on_write env error (s.connections c) in
      serving-WhenClosed s (perform c (k, a) s) x (perform-all_closed c k a s) h
  Step-WhenClosed {s} (handle ws vs c timestamp unset r e a) h =
      λ y. record { not_serving = (h y).not_serving; no_pool = (h y).no_pool }
  Step-WhenClosed {s} (inner t move i) h = λ y. record {
    not_serving = λ x. (h y).not_serving ((inside-inner 0 move i).1 x).0;
    no_pool = (h y).no_pool;
  }
  Step-WhenClosed {s} (close_all j a o) h = λ y. record { not_serving = λ x. cc; no_pool = refl }

  Reach-WhenClosed : {all : List Worker} {s : System} → Reach env regex items all s → WhenClosed s
  Reach-WhenClosed begin = λ y. absurd (cc)
  Reach-WhenClosed (next r st) = Step-WhenClosed st (Reach-WhenClosed r)

  -- Behind `CloseAll` no socket of any connection is open, of those that the pool still held and of those
  -- that left it before.
  pub all_closed-closed :
      {all : List Worker} {s : System}
      → AllWaiting all
      → Reach env regex items all s
      → s.all_closed ≡ true
      → (c : ℕ) → (s.connections c).is_open ≡ false
  unfolding contains
  all_closed-closed w r y c =
      (Reach-Holds env regex items w r c).tracked ∙ ap (contains c) (Reach-WhenClosed r y).no_pool
