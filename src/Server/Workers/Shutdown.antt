-- ===== src/Server/Workers/Shutdown.antt =====
-- webcc/request_handler.cc: `Stop` brings every worker to its end.
use devops_workshop.Server.Queue.{pop_or_wait}
use devops_workshop.Server.Workers.{
  Worker, waiting, handling, leaving, stopped, joining, Server, AllWaiting, Step, enqueue,
  take_connection, take_null, done, leave, clear_queue, push_null, Reach,
}
use devops_workshop.Server.Workers.Invariant.{
  total, total-at, is_leaving, InPhase, Inv, pop-cons, move, Reach-Inv,
}
use devops_workshop.Prelude.{
  ℕ, ◌<◌, ◌≡◌, ◌⊎◌, inl, inr, refl, ap, Option, none, some, List, [], ◌∷◌, ◌++◌, arith, ltb,
  Bool-cases, All,
}

-- How far a worker is from its end, in steps of its own.
abbrev pub to_go : Worker → ℕ
to_go (handling c) = 3
to_go waiting = 2
to_go leaving = 1
to_go stopped = 0

-- Steps of the workers that are still to come, once the server waits for them.
unfoldable pub remaining : List Worker → ℕ
unfolding total
remaining = total to_go

-- A worker that weighs something.
find_worker :
    (f : Worker → ℕ) (ws : List Worker)
    → 0 < total f ws
    → (xs : List Worker) × (w : Worker) × (ys : List Worker) × (ws ≡ xs ++ w ∷ ys) × (0 < f w)
unfolding total
find_worker f [] h = absurd (omega arith)
find_worker f (w ∷ ws) h = elim (Bool-cases (ltb 0 (f w))) [
  | inl here ↦ ([], w, ws, refl, ground arith)
  | inr no_ ↦
      let (xs, v, ys, e, p) = find_worker f ws (ground arith) in (w ∷ xs, v, ys, ap (◌∷◌ w) e, p)
]

none_to_go : (ws : List Worker) → remaining ws ≡ 0 → All (λ w. w ≡ stopped) ws
unfolding remaining
none_to_go [] h = tt
none_to_go (stopped ∷ ws) h = (refl, none_to_go ws (omega arith))
none_to_go (waiting ∷ ws) h = absurd (omega arith)
none_to_go (handling c ∷ ws) h = absurd (omega arith)
none_to_go (leaving ∷ ws) h = absurd (omega arith)

-- one worker less far from its end
moved :
    (ws : List Worker) (w v : Worker) (vs : List Worker) (old : List Worker)
    → old ≡ ws ++ w ∷ vs
    → to_go v < to_go w
    → remaining (ws ++ v ∷ vs) < remaining old
unfolding remaining
moved ws w v vs old e h =
    omega (arith, ap (total to_go) e, total-at to_go ws w vs, total-at to_go ws v vs)

Step-joining :
    {s t : Server}
    → Step s t
    → Inv s
    → s.phase ≡ joining
    → (t.phase ≡ joining) × (remaining t.workers < remaining s.workers)
Step-joining {s} (enqueue c e) h j = absurd (cc)
Step-joining {s} (take_connection ws vs c q e p) h j =
    absurd (no_connection c q (pop-cons s.queue q (some c) p) (move s j refl refl h))
  where
    no_connection :
        (c : ℕ) (q : List (Option ℕ)) → s.queue ≡ some c ∷ q → InPhase joining s.queue s.workers → ⊥
    no_connection c q x (inl (y, z)) = cc
    no_connection c q x (inr (y, z)) = cc
Step-joining {s} (take_null ws vs q e p) h j =
    (j, moved ws waiting leaving vs s.workers e (omega arith))
Step-joining {s} (done ws vs c e) h j =
    (j, moved ws (handling c) waiting vs s.workers e (omega arith))
Step-joining {s} (leave ws vs e) h j = (j, moved ws leaving stopped vs s.workers e (omega arith))
Step-joining {s} (clear_queue e) h j = absurd (cc)
Step-joining {s} (push_null e) h j = absurd (cc)

-- Once the server, whose workers all began by waiting, waits for them to end, each step of any
-- thread leaves it waiting and reduces `remaining`, the sum of the steps to come, at most three for
-- each worker.
pub stopping-decreases :
    {ws : List Worker} {s t : Server}
    → AllWaiting ws
    → Reach ws s
    → s.phase ≡ joining
    → Step s t
    → (t.phase ≡ joining) × (remaining t.workers < remaining s.workers)
stopping-decreases h r j st = Step-joining st (Reach-Inv h r) j

CanStep : Server → Type 0
CanStep s = (t : Server) × Step s t

can_leave : (s : Server) → total is_leaving s.workers ≡ 1 → CanStep s
unfolding CanStep
can_leave s h =
    let (xs, w, ys, e, p) = find_worker is_leaving s.workers (omega arith) in go xs w ys e p
  where
    go :
        (xs : List Worker) (w : Worker) (ys : List Worker)
        → s.workers ≡ xs ++ w ∷ ys
        → 0 < is_leaving w
        → (t : Server) × Step s t
    go xs leaving ys e p = (_, leave xs ys e)
    go xs waiting ys e p = absurd (omega arith)
    go xs (handling c) ys e p = absurd (omega arith)
    go xs stopped ys e p = absurd (omega arith)

can_go_on : (s : Server) → s.queue ≡ none ∷ [] → 0 < remaining s.workers → CanStep s
unfolding CanStep remaining pop_or_wait
can_go_on s q h = let (xs, w, ys, e, p) = find_worker to_go s.workers h in go xs w ys e p
  where
    go :
        (xs : List Worker) (w : Worker) (ys : List Worker)
        → s.workers ≡ xs ++ w ∷ ys
        → 0 < to_go w
        → (t : Server) × Step s t
    go xs leaving ys e p = (_, leave xs ys e)
    go xs waiting ys e p = (_, take_null xs ys [] e (ap pop_or_wait q))
    go xs (handling c) ys e p = (_, done xs ys c e)
    go xs stopped ys e p = absurd (omega arith)

-- Once the server, whose workers all began by waiting, waits for them to end, either all of them
-- have stopped, or a step is possible.
pub stopping-no_deadlock :
    {ws : List Worker} {s : Server}
    → AllWaiting ws
    → Reach ws s
    → s.phase ≡ joining
    → All (λ w. w ≡ stopped) s.workers ⊎ ((t : Server) × Step s t)
unfolding CanStep
stopping-no_deadlock {ws} {s} h r j = go (move s j refl refl (Reach-Inv h r))
  where
    go :
        InPhase joining s.queue s.workers
        → All (λ w. w ≡ stopped) s.workers ⊎ ((t : Server) × Step s t)
    go (inr (q, z)) = inr (can_leave s z)
    go (inl (q, z)) = elim (Bool-cases (ltb 0 (remaining s.workers))) [
      | inl more ↦ inr (can_go_on s q (ground arith))
      | inr done_ ↦ inl (none_to_go s.workers (ground arith))
    ]
