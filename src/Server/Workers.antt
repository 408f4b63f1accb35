-- ===== src/Server/Workers.antt =====
-- webcc/request_handler.cc: the worker threads of `RequestHandler` over its queue, interleaved with the
-- thread that runs the server. A connection is a number; `none` is the null pointer.
pub mod Invariant
pub mod Shutdown
pub mod Order
use devops_workshop.Server.Queue.{push, pop_or_wait, clear}
use devops_workshop.Prelude.{
  ℕ, zero, suc, ◌≡◌, true, false, Option, none, some, List, [], ◌∷◌, ◌++◌, All,
}
use devops_workshop.Bytes.{equal, cut, strip}

-- Where a worker stands in `WorkerRoutine`.
pub data Worker : Type 0 where
  waiting : Worker  -- in `PopOrWait`
  handling : ℕ → Worker  -- in `HandleConnection`
  leaving : Worker  -- before the `Push` that stops the next worker
  stopped : Worker

-- Where the thread of the server stands: before `Stop`, behind its `Clear`, and behind its `Push`.
pub data Phase : Type 0 where
  serving cleared joining : Phase

pub record Server : Type 0 where
  pub queue : List (Option ℕ)
  pub workers : List Worker
  pub phase : Phase
  -- the connections that were enqueued, and those that a worker took, oldest first
  pub enqueued : List ℕ
  pub taken : List ℕ

-- `Start`, with some number of workers
abbrev pub started : List Worker → Server
started ws = record { queue = []; workers = ws; phase = serving; enqueued = []; taken = [] }

abbrev pub AllWaiting : List Worker → Type 0
AllWaiting = All (λ w. w ≡ waiting)

-- A step of one thread. Worker steps pick any worker, `ws ++ w ∷ vs`.
pub data Step (s : Server) : Server → Type 0 where
  -- `Enqueue`, on the server's thread
  enqueue :
      (c : ℕ)
      → s.phase ≡ serving
      → Step s (record s { queue = push (some c) s.queue; enqueued = s.enqueued ++ c ∷ [] })
  -- `PopOrWait` returns a connection
  take_connection :
      (ws vs : List Worker) (c : ℕ) (q : List (Option ℕ))
      → s.workers ≡ ws ++ waiting ∷ vs
      → pop_or_wait s.queue ≡ some (some c, q)
      → Step s (record s { queue = q; workers = ws ++ handling c ∷ vs; taken = s.taken ++ c ∷ [] })
  -- `PopOrWait` returns the null pointer
  take_null :
      (ws vs : List Worker) (q : List (Option ℕ))
      → s.workers ≡ ws ++ waiting ∷ vs
      → pop_or_wait s.queue ≡ some (none, q)
      → Step s (record s { queue = q; workers = ws ++ leaving ∷ vs })
  -- `HandleConnection` returns
  done :
      (ws vs : List Worker) (c : ℕ)
      → s.workers ≡ ws ++ handling c ∷ vs
      → Step s (record s { workers = ws ++ waiting ∷ vs })
  -- the null pointer goes back for the next worker, and the worker ends
  leave :
      (ws vs : List Worker)
      → s.workers ≡ ws ++ leaving ∷ vs
      → Step s (record s { queue = push none s.queue; workers = ws ++ stopped ∷ vs })
  -- `Stop`: the queue is cleared, then the null pointer is pushed; then the workers are joined
  clear_queue : s.phase ≡ serving → Step s (record s { queue = clear s.queue; phase = cleared })
  push_null : s.phase ≡ cleared → Step s (record s { queue = push none s.queue; phase = joining })

-- The states that a server with such workers can get into.
pub data Reach (ws : List Worker) : Server → Type 0 where
  start : Reach ws (started ws)
  next : {s t : Server} → Reach ws s → Step s t → Reach ws t
