-- ===== src/Server/Workers/Invariant.antt =====
-- webcc/request_handler.cc: where the null pointer is while the server stops.
use mathlib.Core.Path.{subst, subst₃}
use devops_workshop.Server.Queue.{push, pop_or_wait, clear}
use devops_workshop.Server.Workers.{
  Worker, waiting, handling, leaving, stopped, Phase, serving, cleared, joining, Server, AllWaiting,
  Step, enqueue, take_connection, take_null, done, leave, clear_queue, push_null, Reach, start,
  next,
}
use devops_workshop.Prelude.{
  ℕ, ◌+◌, ◌≡◌, ◌≢◌, ◌⊎◌, inl, inr, refl, sym, ap, ◌∙◌, Option, none, some, List, [], ◌∷◌, ◌++◌,
  arith, All, All-append,
}

-- A sum over the workers.
unfoldable pub total : (Worker → ℕ) → List Worker → ℕ
total f [] = 0
total f (w ∷ ws) = f w + total f ws

pub total-at :
    (f : Worker → ℕ) (ws : List Worker) (w : Worker) (vs : List Worker)
    → total f (ws ++ w ∷ vs) ≡ total f ws + f w + total f vs
unfolding total
total-at f [] w vs = omega arith
total-at f (x ∷ ws) w vs = omega (arith, total-at f ws w vs)

pub total-zero :
    (f : Worker → ℕ) (ws : List Worker) → f waiting ≡ 0 → AllWaiting ws → total f ws ≡ 0
unfolding total
total-zero f [] z h = refl
total-zero f (w ∷ ws) z h = omega (arith, ap f h.0 ∙ z, total-zero f ws z h.1)

abbrev pub is_leaving : Worker → ℕ
is_leaving leaving = 1
is_leaving _ = 0

abbrev pub has_left : Worker → ℕ
has_left leaving = 1
has_left stopped = 1
has_left _ = 0

-- no null pointer in the queue
abbrev pub NoNull : List (Option ℕ) → Type 0
NoNull = All (λ (m : Option ℕ). m ≢ none)

-- What holds in each phase. Behind `Stop`'s push, the null pointer is in the queue, alone, or with
-- exactly one worker that is about to give it back.
abbrev pub InPhase : Phase → List (Option ℕ) → List Worker → Type 0
InPhase serving q ws = NoNull q × (total has_left ws ≡ 0)
InPhase cleared q ws = (q ≡ []) × (total has_left ws ≡ 0)
InPhase joining q ws =
    ((q ≡ none ∷ []) × (total is_leaving ws ≡ 0)) ⊎ ((q ≡ []) × (total is_leaving ws ≡ 1))

abbrev pub Inv : Server → Type 0
Inv s = InPhase s.phase s.queue s.workers

pub pop-cons : (q r : List (Option ℕ)) (m : Option ℕ) → pop_or_wait q ≡ some (m, r) → q ≡ m ∷ r
unfolding pop_or_wait
pop-cons [] r m e = absurd (cc)
pop-cons (x ∷ q) r m e = cc e

NoNull-push : (c : ℕ) (q : List (Option ℕ)) → NoNull q → NoNull (q ++ some c ∷ [])
NoNull-push c q h = All-append (λ (m : Option ℕ). m ≢ none) q (some c ∷ []) h ((λ e. cc), tt)

-- a worker that is replaced by one of the same weight
same_total :
    (f : Worker → ℕ) (ws : List Worker) (w v : Worker) (vs : List Worker)
    → f w ≡ f v
    → total f (ws ++ w ∷ vs) ≡ total f (ws ++ v ∷ vs)
same_total f ws w v vs e = omega (arith, total-at f ws w vs, total-at f ws v vs)

took_connection :
    (ph : Phase) (c : ℕ) (q : List (Option ℕ)) (ws vs : List Worker)
    → InPhase ph (some c ∷ q) (ws ++ waiting ∷ vs)
    → InPhase ph q (ws ++ handling c ∷ vs)
took_connection serving c q ws vs (n, z) =
    (n.1, sym (same_total has_left ws waiting (handling c) vs refl) ∙ z)
took_connection cleared c q ws vs (e, z) = absurd (cc)
took_connection joining c q ws vs (inl (e, z)) = absurd (cc)
took_connection joining c q ws vs (inr (e, z)) = absurd (cc)

took_null :
    (ph : Phase) (q : List (Option ℕ)) (ws vs : List Worker)
    → InPhase ph (none ∷ q) (ws ++ waiting ∷ vs)
    → (ph ≡ joining) × InPhase ph q (ws ++ leaving ∷ vs)
took_null serving q ws vs (n, z) = absurd (n.0 refl)
took_null cleared q ws vs (e, z) = absurd (cc)
took_null joining q ws vs (inl (e, z)) = (
  refl,
  inr (cc e, omega (arith, total-at is_leaving ws waiting vs, total-at is_leaving ws leaving vs)),
)
took_null joining q ws vs (inr (e, z)) = absurd (cc)

was_done :
    (ph : Phase) (c : ℕ) (q : List (Option ℕ)) (ws vs : List Worker)
    → InPhase ph q (ws ++ handling c ∷ vs)
    → InPhase ph q (ws ++ waiting ∷ vs)
was_done serving c q ws vs (n, z) =
    (n, sym (same_total has_left ws (handling c) waiting vs refl) ∙ z)
was_done cleared c q ws vs (e, z) =
    (e, sym (same_total has_left ws (handling c) waiting vs refl) ∙ z)
was_done joining c q ws vs (inl (e, z)) =
    inl (e, sym (same_total is_leaving ws (handling c) waiting vs refl) ∙ z)
was_done joining c q ws vs (inr (e, z)) =
    inr (e, sym (same_total is_leaving ws (handling c) waiting vs refl) ∙ z)

has_gone :
    (ph : Phase) (q : List (Option ℕ)) (ws vs : List Worker)
    → InPhase ph q (ws ++ leaving ∷ vs)
    → (ph ≡ joining) × InPhase ph (q ++ none ∷ []) (ws ++ stopped ∷ vs)
has_gone serving q ws vs (n, z) = absurd (omega (arith, total-at has_left ws leaving vs))
has_gone cleared q ws vs (e, z) = absurd (omega (arith, total-at has_left ws leaving vs))
has_gone joining q ws vs (inl (e, z)) = absurd (omega (arith, total-at is_leaving ws leaving vs))
has_gone joining q ws vs (inr (e, z)) = (
  refl,
  inl (
    ap (λ (l : List (Option ℕ)). l ++ none ∷ []) e,
    omega (arith, total-at is_leaving ws leaving vs, total-at is_leaving ws stopped vs),
  ),
)

no_leaver : (ws : List Worker) → total has_left ws ≡ 0 → total is_leaving ws ≡ 0
unfolding total
no_leaver [] h = refl
no_leaver (waiting ∷ ws) h = omega (arith, no_leaver ws (omega arith))
no_leaver (handling c ∷ ws) h = omega (arith, no_leaver ws (omega arith))
no_leaver (leaving ∷ ws) h = absurd (omega arith)
no_leaver (stopped ∷ ws) h = absurd (omega arith)

-- The invariant with the phase, the queue and the workers replaced by equal ones.
pub move :
    (s : Server) {ph : Phase} {q : List (Option ℕ)} {ws : List Worker}
    → s.phase ≡ ph
    → s.queue ≡ q
    → s.workers ≡ ws
    → Inv s
    → InPhase ph q ws
move s e f g h = subst₃ InPhase e f g h

pub Step-Inv : {s t : Server} → Step s t → Inv s → Inv t
unfolding push clear
Step-Inv {s} (enqueue c e) h =
    let (n, z) = move s e refl refl h in
    subst (λ ph. InPhase ph (s.queue ++ some c ∷ []) s.workers) (sym e) (NoNull-push c s.queue n, z)
Step-Inv {s} (take_connection ws vs c q e p) h =
    took_connection s.phase c q ws vs (move s refl (pop-cons s.queue q (some c) p) e h)
Step-Inv {s} (take_null ws vs q e p) h =
    (took_null s.phase q ws vs (move s refl (pop-cons s.queue q none p) e h)).1
Step-Inv {s} (done ws vs c e) h = was_done s.phase c s.queue ws vs (move s refl refl e h)
Step-Inv {s} (leave ws vs e) h = (has_gone s.phase s.queue ws vs (move s refl refl e h)).1
Step-Inv {s} (clear_queue e) h = (refl, (move s e refl refl h).1)
Step-Inv {s} (push_null e) h =
    let (q, z) = move s e refl refl h in
    inl (ap (λ (l : List (Option ℕ)). l ++ none ∷ []) q, no_leaver s.workers z)

pub Reach-Inv : {ws : List Worker} {s : Server} → AllWaiting ws → Reach ws s → Inv s
Reach-Inv {ws} h start = (tt, total-zero has_left ws refl h)
Reach-Inv h (next r st) = Step-Inv st (Reach-Inv h r)
