-- ===== src/Server/System/Ownership.antt =====
-- webcc/server.cc: who holds a connection, and which sockets are open.
use devops_workshop.Parser.State.{Env}
use devops_workshop.Rest.Service.{Service}
use devops_workshop.Rest.Manager.{Regex, ServiceItem}
use devops_workshop.Server.Workers.{Worker, handling, serving, AllWaiting}
use devops_workshop.Server.Workers.Invariant.{total}
use devops_workshop.Server.Pool.{contains}
use devops_workshop.Server.System.{Operation, System, Reach}
use devops_workshop.Server.System.Tokens.{
  one_if, queued, handles, operating, tokens, same, handles-at,
}
use devops_workshop.Server.System.Invariant.{Holds}
use devops_workshop.Server.System.Steps.{Reach-Holds}
use devops_workshop.Prelude.{
  ℕ, ◌<◌, ◌∙◌, ◌+◌, ◌≡◌, refl, true, Option, none, some, List, [], ◌∷◌, ◌++◌, arith, ◌==◌,
  if◌then◌else◌,
}

none_of_zero : (o : Option Operation) → operating o ≡ 0 → o ≡ none
none_of_zero none h = refl
none_of_zero (some op) h = absurd (cc)

total-append : (f : Worker → ℕ) (ws vs : List Worker) → total f (ws ++ vs) ≡ total f ws + total f vs
unfolding total
total-append f [] vs = omega arith
total-append f (x ∷ ws) vs = omega (arith, total-append f ws vs)

module _ (env : Env) (regex : Regex) (items : List (ServiceItem regex Service)) where
  -- A connection that a worker handles has a complete request. Nothing is being read from it or written
  -- to it, it is not in the queue, and no other worker handles it.
  pub handled_alone :
      {all : List Worker} {s : System}
      → AllWaiting all
      → Reach env regex items all s
      → (ws vs : List Worker) (c : ℕ) → s.server.workers ≡ ws ++ handling c ∷ vs
      → ((s.connections c).parser.finished ≡ true)
        × (s.pending c ≡ none)
        × (queued c s.server.queue ≡ 0)
        × (total (handles c) (ws ++ vs) ≡ 0)
  handled_alone {all} {s} w r ws vs c e = (
    h.complete (omega (arith, here, this_one)),
    none_of_zero (s.pending c) (omega (arith, here, this_one, h.at_most)),
    omega (arith, here, this_one, h.at_most),
    omega (arith, here, this_one, h.at_most, total-append (handles c) ws vs),
  )
    where
      h : Holds s c
      h = Reach-Holds env regex items w r c

      here :
          total (handles c) s.server.workers
          ≡ total (handles c) ws + handles c (handling c) + total (handles c) vs
      here = handles-at c ws vs (handling c) s.server e

      this_one : one_if (c == c) ≡ 1
      this_one = rw (same c) refl

  -- Until the server stops, a connection is in the pool exactly if one operation, place in the queue or
  -- worker will go on with it, and there is never more than one; its socket is open exactly then.
  pub pool_tracks :
      {all : List Worker} {s : System}
      → AllWaiting all
      → Reach env regex items all s
      → s.server.phase ≡ serving
      → (c : ℕ)
      → (tokens s c ≡ (if contains c s.pool then 1 else 0))
        × ((s.connections c).is_open ≡ contains c s.pool)
  pool_tracks w r x c = let h = Reach-Holds env regex items w r c in (h.while_serving x, h.tracked)

  -- Until the server stops, a connection that is in the queue is there once. It has a complete request,
  -- its socket is open and it is in the pool; nothing is being read from it or written to it, and no
  -- worker handles it.
  pub queued_ready :
      {all : List Worker} {s : System}
      → AllWaiting all
      → Reach env regex items all s
      → s.server.phase ≡ serving
      → (c : ℕ) → 0 < queued c s.server.queue
      → (queued c s.server.queue ≡ 1)
        × ((s.connections c).parser.finished ≡ true)
        × ((s.connections c).is_open ≡ true)
        × (contains c s.pool ≡ true)
        × (s.pending c ≡ none)
        × (total (handles c) s.server.workers ≡ 0)
  queued_ready {all} {s} w r x c q = (
    omega (arith, h.at_most),
    h.complete (omega arith),
    h.tracked ∙ in_pool,
    in_pool,
    none_of_zero (s.pending c) (omega (arith, h.at_most)),
    omega (arith, h.at_most),
  )
    where
      h : Holds s c
      h = Reach-Holds env regex items w r c

      in_pool : contains c s.pool ≡ true
      in_pool = ground (arith, h.while_serving x)
