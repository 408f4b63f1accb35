-- ===== src/Server/Workers/Order.antt =====
-- webcc/queue.h and request_handler.cc: connections are handled in the order of their arrival.
use devops_workshop.Server.Queue.{push, clear}
use devops_workshop.Server.Workers.{
  Worker, waiting, leaving, stopped, Phase, serving, cleared, joining, Server, Step, enqueue,
  take_connection, take_null, done, leave, clear_queue, push_null, Reach, start, next,
}
use devops_workshop.Server.Workers.Invariant.{pop-cons}
use devops_workshop.Prelude.{
  ℕ, ◌≡◌, ◌≢◌, ◌⊎◌, inl, inr, refl, sym, ap, ◌∙◌, Option, none, some, List, [], ◌∷◌, ◌++◌,
  append_assoc, append-nil,
}

-- the connections that wait in a queue
abbrev pub connections : List (Option ℕ) → List ℕ
connections [] = []
connections (none ∷ q) = connections q
connections (some c ∷ q) = c ∷ connections q

connections-append : (q r : List (Option ℕ)) → connections (q ++ r) ≡ connections q ++ connections r
connections-append [] r = refl
connections-append (none ∷ q) r = connections-append q r
connections-append (some c ∷ q) r = ap (◌∷◌ c) (connections-append q r)

-- What was enqueued is what was taken, what was dropped by `Clear`, and what waits, in this order.
record Ordered (s : Server) : Type 0 where
  dropped : List ℕ
  in_order : s.enqueued ≡ s.taken ++ (dropped ++ connections s.queue)
  nothing_dropped : s.phase ≡ serving → dropped ≡ []
  nothing_waits : s.phase ≢ serving → connections s.queue ≡ []

Phase-cases : (ph : Phase) → (ph ≡ serving) ⊎ (ph ≢ serving)
Phase-cases serving = inl refl
Phase-cases cleared = inr (λ e. cc)
Phase-cases joining = inr (λ e. cc)

-- While a connection waits, the server has not been told to stop.
waits-serving :
    (s : Server) (c : ℕ) (q : List (Option ℕ))
    → Ordered s
    → s.queue ≡ some c ∷ q
    → s.phase ≡ serving
waits-serving s c q o e = elim (Phase-cases s.phase) [
  | inl here ↦ here
  | inr stopping ↦ absurd (cc (o.nothing_waits stopping, ap connections e))
]

connections-null : (q : List (Option ℕ)) → connections (q ++ none ∷ []) ≡ connections q
connections-null q = connections-append q (none ∷ []) ∙ append-nil (connections q)

-- A step that leaves the connections and the phase alone.
same_connections :
    (s t : Server)
    → t.enqueued ≡ s.enqueued
    → t.taken ≡ s.taken
    → connections t.queue ≡ connections s.queue
    → (t.phase ≡ serving → s.phase ≡ serving)
    → (t.phase ≢ serving → connections s.queue ≡ [])
    → Ordered s
    → Ordered t
same_connections s t e k q f g o = record {
  dropped = o.dropped;
  in_order = e ∙ o.in_order ∙ (λ i. sym k i ++ (o.dropped ++ sym q i));
  nothing_dropped = λ x. o.nothing_dropped (f x);
  nothing_waits = λ n. q ∙ g n;
}

Step-Ordered : {s t : Server} → Step s t → Ordered s → Ordered t
unfolding push clear
Step-Ordered {s} (enqueue c e) o = record {
  dropped = [];
  in_order =
      ap (λ (l : List ℕ). l ++ c ∷ [])
        (o.in_order ∙ ap (λ d. s.taken ++ (d ++ connections s.queue)) (o.nothing_dropped e))
      ∙ append_assoc s.taken (connections s.queue) (c ∷ [])
      ∙ ap (λ l. s.taken ++ l) (sym (connections-append s.queue (some c ∷ [])));
  nothing_dropped = λ x. refl;
  nothing_waits = λ n. absurd (n e);
}
Step-Ordered {s} (take_connection ws vs c q e p) o =
    let head = pop-cons s.queue q (some c) p in
    let here = waits-serving s c q o head in
    record {
      dropped = [];
      in_order =
          o.in_order
          ∙ (λ i. s.taken ++ (o.nothing_dropped here i ++ connections (head i)))
          ∙ sym (append_assoc s.taken (c ∷ []) (connections q));
      nothing_dropped = λ x. refl;
      nothing_waits = λ n. absurd (n here);
    }
Step-Ordered {s} (take_null ws vs q e p) o =
    same_connections s (record s { queue = q; workers = ws ++ leaving ∷ vs }) refl refl
      (sym (ap connections (pop-cons s.queue q none p))) (λ x. x) o.nothing_waits o
Step-Ordered {s} (done ws vs c e) o =
    same_connections s (record s { workers = ws ++ waiting ∷ vs }) refl refl refl (λ x. x)
      o.nothing_waits o
Step-Ordered {s} (leave ws vs e) o =
    same_connections s (record s { queue = s.queue ++ none ∷ []; workers = ws ++ stopped ∷ vs })
      refl refl (connections-null s.queue) (λ x. x) o.nothing_waits o
Step-Ordered {s} (clear_queue e) o = record {
  dropped = o.dropped ++ connections s.queue;
  in_order =
      o.in_order ∙ ap (λ l. s.taken ++ l) (sym (append-nil (o.dropped ++ connections s.queue)));
  nothing_dropped = λ x. absurd (cc);
  nothing_waits = λ n. refl;
}
Step-Ordered {s} (push_null e) o =
    let waits = o.nothing_waits (λ x. cc) in
    record {
      dropped = o.dropped;
      in_order =
          o.in_order ∙ ap (λ l. s.taken ++ (o.dropped ++ l)) (sym (connections-null s.queue));
      nothing_dropped = λ x. absurd (cc);
      nothing_waits = λ n. connections-null s.queue ∙ waits;
    }

Reach-Ordered : {ws : List Worker} {s : Server} → Reach ws s → Ordered s
Reach-Ordered start = record {
  dropped = [];
  in_order = refl;
  nothing_dropped = λ x. refl;
  nothing_waits = λ n. refl;
}
Reach-Ordered (next r st) = Step-Ordered st (Reach-Ordered r)

-- Until the server stops, the connections that were enqueued are those that workers have taken and
-- then those that wait in the queue, in the same order, each once, in every state that the threads
-- can reach.
pub serving_in_order :
    {ws : List Worker} {s : Server}
    → Reach ws s
    → s.phase ≡ serving
    → s.enqueued ≡ s.taken ++ connections s.queue
serving_in_order {ws} {s} r x =
    let o = Reach-Ordered r in
    o.in_order ∙ ap (λ d. s.taken ++ (d ++ connections s.queue)) (o.nothing_dropped x)

-- In every state that the threads can reach, also while the server stops, what workers have taken is
-- a prefix of what was enqueued.
pub taken_in_order :
    {ws : List Worker} {s : Server} → Reach ws s → (rest : List ℕ) × (s.enqueued ≡ s.taken ++ rest)
taken_in_order {ws} {s} r =
    let o = Reach-Ordered r in (o.dropped ++ connections s.queue, o.in_order)
