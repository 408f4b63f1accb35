-- ===== src/Server/System/Steps.antt =====
-- webcc/server.cc: each step of the server keeps what holds of the connections.
use devops_workshop.Http.Response.{Response}
use devops_workshop.Parser.State.{Env}
use devops_workshop.Rest.Service.{Service}
use devops_workshop.Rest.Manager.{Regex, ServiceItem}
use devops_workshop.Server.Workers.{
  Worker, waiting, handling, Phase, serving, Server, AllWaiting, started,
}
use devops_workshop.Server.Workers as Workers
use devops_workshop.Server.Workers.Invariant.{total-zero}
use devops_workshop.Server.Connection.{Connection, Action, do_write, on_write}
use devops_workshop.Server.Pool.{contains, close_each, close_each_lem}
use devops_workshop.Server.System.{
  Operation, reading, writing, System, initial, perform, IsInner, Step, accept, read, write, handle,
  inner, close_all, Reach, begin, next,
}
use devops_workshop.Server.System.Tokens.{
  one_if, queued, handles, operating, inside, same, flip, inside_replaced, inside-inner,
}
use devops_workshop.Server.System.Invariant.{
  Holds, perform-Holds_self, perform-Holds, outside, accepted-Holds,
}
use devops_workshop.Server.System.Handlers.{GoesOn, on_read-GoesOn, on_write-GoesOn}
use devops_workshop.Prelude.{
  ℕ, ◌+◌, ◌≡◌, ◌≢◌, refl, sym, ap, ◌∙◌, true, false, some, List, [], ◌∷◌, ◌++◌, arith, ◌==◌,
}

-- A handler that ran on the one operation of a connection.
handler-Holds :
    (s : System) (c : ℕ) (op : Operation) (result : Connection × Action)
    → s.server.phase ≡ serving
    → s.pending c ≡ some op
    → ((d : ℕ) → Holds s d)
    → GoesOn result
    → (d : ℕ) → Holds (perform c result s) d
handler-Holds s c op (k, a) x p h (o, n, e) d =
    let (z, b) = outside s c op x p (h c) in
    perform-Holds c d (k, a) s (λ m. h d)
      (perform-Holds_self c k a s n z (λ y. b) (o ∙ sym b) (h c).fresh e)

-- A worker that has handled a connection waits again.
released-Holds :
    (s : System) (ws vs : List Worker) (c d : ℕ)
    → s.server.workers ≡ ws ++ handling c ∷ vs
    → (d == c) ≡ false
    → Holds s d
    → Holds (record s { server = record (s.server) { workers = ws ++ waiting ∷ vs } }) d
released-Holds s ws vs c d e n h = record {
  at_most = omega (arith, fewer, h.at_most);
  while_serving = λ x. ap (λ m. operating (s.pending d) + m) fewer ∙ h.while_serving x;
  tracked = h.tracked;
  complete = λ l. h.complete (omega (arith, fewer));
  fresh = h.fresh;
}
  where
    not_this : one_if (c == d) ≡ 0
    not_this = rw (flip c d n) refl

    fewer : inside d (record (s.server) { workers = ws ++ waiting ∷ vs }) ≡ inside d s.server
    fewer = omega (arith, inside_replaced d ws vs (handling c) waiting s.server e, not_this)

handled-Holds :
    (s : System) (ws vs : List Worker) (c : ℕ) (r : Response)
    → s.server.workers ≡ ws ++ handling c ∷ vs
    → ((d : ℕ) → Holds s d)
    → (d : ℕ)
    → Holds
        (perform c
          (record (s.connections c) { response = some r }, do_write)
          (record s { server = record (s.server) { workers = ws ++ waiting ∷ vs } }))
        d
handled-Holds s ws vs c r e h d =
    let s' = record s { server = record (s.server) { workers = ws ++ waiting ∷ vs } } in
    perform-Holds c d (record (s.connections c) { response = some r }, do_write) s'
      (λ n. released-Holds s ws vs c d e n (h d))
      (perform-Holds_self c (record (s.connections c) { response = some r }) do_write s' (λ x. cc)
        (omega (arith, freed, (h c).at_most)) in_pool (h c).tracked (h c).fresh (λ x. absurd (cc)))
  where
    this_one : one_if (c == c) ≡ 1
    this_one = rw (same c) refl

    freed : inside c (record (s.server) { workers = ws ++ waiting ∷ vs }) + 1 ≡ inside c s.server
    freed = omega (arith, inside_replaced c ws vs (handling c) waiting s.server e, this_one)

    in_pool : s.server.phase ≡ serving → contains c s.pool ≡ true
    in_pool x = ground (arith, freed, (h c).while_serving x)

inner-Holds :
    (s : System) (t : Server) (move : Workers.Step s.server t)
    → IsInner move
    → (d : ℕ) → Holds s d
    → Holds (record s { server = t }) d
inner-Holds s t move i d h = record {
  at_most = omega (arith, (inside-inner d move i).0, h.at_most);
  while_serving = λ x.
      let (y, e) = (inside-inner d move i).1 x in
      ap (λ m. operating (s.pending d) + m) e ∙ h.while_serving y;
  tracked = h.tracked;
  complete = λ l. h.complete (omega (arith, (inside-inner d move i).0));
  fresh = h.fresh;
}

closed-Holds :
    (s : System) (d : ℕ)
    → s.server.phase ≢ serving
    → Holds s d
    → Holds
        (record s { connections = close_each s.pool s.connections; pool = []; all_closed = true })
        d
unfolding contains
closed-Holds s d n h =
    let e = close_each_lem s.pool s.connections d in
    record {
      at_most = h.at_most;
      while_serving = λ x. absurd (n x);
      tracked = ap (λ (k : Connection). k.is_open) e ∙ ground (arith, h.tracked);
      complete = λ l. ap (λ (k : Connection). k.parser.finished) e ∙ h.complete l;
      fresh = λ l. refl;
    }

module _ (env : Env) (regex : Regex) (items : List (ServiceItem regex Service)) where
  Step-Holds :
      {s t : System} → Step env regex items s t → ((d : ℕ) → Holds s d) → (d : ℕ) → Holds t d
  Step-Holds {s} (accept x) h d = accepted-Holds s x h d
  Step-Holds {s} (read c timestamp error arrived result x p f e) h d =
      handler-Holds s c reading result x p h
        (on_read-GoesOn env timestamp error arrived (s.connections c) result
          ((h c).tracked ∙ (outside s c reading x p (h c)).1) f e)
        d
  Step-Holds {s} (write c error x p f) h d =
      handler-Holds s c writing (on_write env error (s.connections c)) x p h
        (on_write-GoesOn env error (s.connections c)
          ((h c).tracked ∙ (outside s c writing x p (h c)).1) f)
        d
  Step-Holds {s} (handle ws vs c timestamp unset r e a) h d = handled-Holds s ws vs c r e h d
  Step-Holds {s} (inner t move i) h d = inner-Holds s t move i d (h d)
  Step-Holds {s} (close_all j a o) h d = closed-Holds s d (λ x. cc) (h d)

  initial-Holds : (ws : List Worker) → AllWaiting ws → (d : ℕ) → Holds (initial ws) d
  unfolding queued contains
  initial-Holds ws w d =
      let z : inside d (started ws) ≡ 0 = omega (arith, total-zero (handles d) ws refl w) in
      record {
        at_most = omega (arith, z);
        while_serving = λ x. omega (arith, z);
        tracked = refl;
        complete = λ l. absurd (omega (arith, z));
        fresh = λ l. refl;
      }

  pub Reach-Holds :
      {ws : List Worker} {s : System}
      → AllWaiting ws
      → Reach env regex items ws s
      → (d : ℕ) → Holds s d
  Reach-Holds {ws} w begin d = initial-Holds ws w d
  Reach-Holds w (next r st) d = Step-Holds st (Reach-Holds w r) d
