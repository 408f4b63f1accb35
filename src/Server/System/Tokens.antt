-- ===== src/Server/System/Tokens.antt =====
-- webcc/server.cc: where a connection stands. Each place that will go on with it is counted: an operation
-- on its socket, its places in the queue, and the workers that handle it.
use devops_workshop.Server.Queue.{push, clear}
use devops_workshop.Server.Workers.{
  Worker, waiting, handling, leaving, stopped, Phase, serving, cleared, joining, Server, enqueue,
  take_connection, take_null, done, leave, clear_queue, push_null,
}
use devops_workshop.Server.Workers as Workers
use devops_workshop.Server.Workers.Invariant.{total, total-at, pop-cons}
use devops_workshop.Server.Connection.{Connection, Action, do_read, do_write, close, nothing}
use devops_workshop.Server.Connection as Connection
use devops_workshop.Server.System.{Operation, System, perform, IsInner}
use devops_workshop.Prelude.{
  ℕ, ◌+◌, ◌≤◌, ◌≡◌, refl, ap, ◌∙◌, Bool, true, false, Option, none, some, List, [], ◌∷◌, ◌++◌,
  arith, ◌==◌, if◌then◌else◌,
}

abbrev pub one_if : Bool → ℕ
one_if b = if b then 1 else 0

unfoldable pub queued : ℕ → List (Option ℕ) → ℕ
queued c [] = 0
queued c (none ∷ q) = queued c q
queued c (some d ∷ q) = one_if (d == c) + queued c q

abbrev pub handles : ℕ → Worker → ℕ
handles c (handling d) = one_if (d == c)
handles c _ = 0

abbrev pub operating : Option Operation → ℕ
operating none = 0
operating (some op) = 1

-- the queue and the workers
abbrev pub inside : ℕ → Server → ℕ
inside c s = queued c s.queue + total (handles c) s.workers

abbrev pub tokens : System → ℕ → ℕ
tokens s c = operating (s.pending c) + inside c s.server

queued-append : (c : ℕ) (q r : List (Option ℕ)) → queued c (q ++ r) ≡ queued c q + queued c r
unfolding queued
queued-append c [] r = omega arith
queued-append c (none ∷ q) r = queued-append c q r
queued-append c (some d ∷ q) r = omega (arith, queued-append c q r)

-- what an action leaves of a connection that nothing else holds
abbrev pub cost : Action → ℕ
cost do_read = 1
cost do_write = 1
cost Connection.enqueue = 1
cost close = 0
cost nothing = 0

pub same : (c : ℕ) → (c == c) ≡ true
same c = ground arith

pub flip : (c d : ℕ) → (d == c) ≡ false → (c == d) ≡ false
flip c d n = ground arith

pub tokens-perform_self :
    (c : ℕ) (k : Connection) (a : Action) (s : System)
    → tokens (perform c (k, a) s) c ≡ cost a + inside c s.server
unfolding perform push
tokens-perform_self c k do_read s = rw (same c) refl
tokens-perform_self c k do_write s = rw (same c) refl
tokens-perform_self c k Connection.enqueue s =
    rw (same c) (omega (arith, queued-append c s.server.queue (some c ∷ []), own))
  where
    own : queued c (some c ∷ []) ≡ 1
    own = unfold queued in rw (same c) refl
tokens-perform_self c k close s = rw (same c) refl
tokens-perform_self c k nothing s = rw (same c) refl

pub inside-perform_other :
    (c d : ℕ) (k : Connection) (a : Action) (s : System)
    → (d == c) ≡ false
    → inside d (perform c (k, a) s).server ≡ inside d s.server
unfolding perform push
inside-perform_other c d k Connection.enqueue s n =
    omega (arith, queued-append d s.server.queue (some c ∷ []), not_own)
  where
    not_own : queued d (some c ∷ []) ≡ 0
    not_own = unfold queued in rw (flip c d n) refl
inside-perform_other c d k do_read s n = refl
inside-perform_other c d k do_write s n = refl
inside-perform_other c d k close s n = refl
inside-perform_other c d k nothing s n = refl

pub tokens-perform_other :
    (c d : ℕ) (k : Connection) (a : Action) (s : System)
    → (d == c) ≡ false
    → tokens (perform c (k, a) s) d ≡ tokens s d
unfolding perform push
tokens-perform_other c d k do_read s n = rw n refl
tokens-perform_other c d k do_write s n = rw n refl
tokens-perform_other c d k Connection.enqueue s n =
    rw n (ap (λ m. operating (s.pending d) + m) (inside-perform_other c d k Connection.enqueue s n))
tokens-perform_other c d k close s n = rw n refl
tokens-perform_other c d k nothing s n = rw n refl

-- A worker at one place, before and behind a step.
pub handles-at :
    (c : ℕ) (ws vs : List Worker) (w : Worker) (s : Server)
    → s.workers ≡ ws ++ w ∷ vs
    → total (handles c) s.workers ≡ total (handles c) ws + handles c w + total (handles c) vs
handles-at c ws vs w s e = ap (total (handles c)) e ∙ total-at (handles c) ws w vs

-- A worker that is replaced.
pub inside_replaced :
    (c : ℕ) (ws vs : List Worker) (w v : Worker) (s : Server)
    → s.workers ≡ ws ++ w ∷ vs
    → inside c (record s { workers = ws ++ v ∷ vs }) + handles c w ≡ inside c s + handles c v
inside_replaced c ws vs w v s e =
    omega (arith, handles-at c ws vs w s e, total-at (handles c) ws v vs)

-- A step of a worker, or of `Stop`, moves connections from the queue to the workers, or drops them.
pub inside-inner :
    (c : ℕ) {s t : Server} (move : Workers.Step s t)
    → IsInner move
    → (inside c t ≤ inside c s)
      × (t.phase ≡ serving → (s.phase ≡ serving) × (inside c t ≡ inside c s))
unfolding queued push clear
inside-inner c {s} (enqueue d e) h = elim h [ ]
inside-inner c {s} (take_connection ws vs d q e p) h =
    let f : queued c q + total (handles c) (ws ++ handling d ∷ vs) ≡ inside c s = omega (
      arith,
      ap (queued c) (pop-cons s.queue q (some d) p),
      handles-at c ws vs waiting s e,
      total-at (handles c) ws (handling d) vs,
    ) in
    (omega arith, λ x. (x, f))
inside-inner c {s} (take_null ws vs q e p) h =
    let f : queued c q + total (handles c) (ws ++ leaving ∷ vs) ≡ inside c s = omega (
      arith,
      ap (queued c) (pop-cons s.queue q none p),
      handles-at c ws vs waiting s e,
      total-at (handles c) ws leaving vs,
    ) in
    (omega arith, λ x. (x, f))
inside-inner c {s} (done ws vs d e) h = elim h [ ]
inside-inner c {s} (leave ws vs e) h =
    let f : queued c (s.queue ++ none ∷ []) + total (handles c) (ws ++ stopped ∷ vs) ≡ inside c s =
      omega (
        arith,
        queued-append c s.queue (none ∷ []),
        handles-at c ws vs leaving s e,
        total-at (handles c) ws stopped vs,
      ) in
    (omega arith, λ x. (x, f))
inside-inner c {s} (clear_queue e) h = (omega arith, λ x. absurd (cc))
inside-inner c {s} (push_null e) h =
    (omega (arith, queued-append c s.queue (none ∷ [])), λ x. absurd (cc))
