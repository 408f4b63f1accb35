-- ===== src/Server/System/Invariant.antt =====
-- webcc/server.cc: what holds of each connection in every state of the server.
use mathlib.Core.Path.{subst}
use devops_workshop.Server.Workers.{serving}
use devops_workshop.Server.Connection.{
  Connection, Action, do_read, do_write, enqueue, close, nothing, SocketError, aborted, failed,
  after_parse, respond, on_read, on_write,
}
use devops_workshop.Server.Connection as Connection
use devops_workshop.Server.Pool.{contains, insert, erase, contains-insert, contains-erase}
use devops_workshop.Server.System.{Operation, System, perform, accept_into}
use devops_workshop.Server.System.Tokens.{
  one_if, operating, inside, tokens, same, flip, tokens-perform_self, tokens-perform_other,
  inside-perform_other,
}
use devops_workshop.Prelude.{
  ℕ, ◌≤◌, ◌<◌, ◌≡◌, ◌≢◌, refl, sym, ap, ◌∙◌, inl, inr, true, false, some, arith, ◌==◌, ==_iff,
  Bool-cases,
}

pub record Holds (s : System) (c : ℕ) : Type 0 where
  pub at_most : tokens s c ≤ 1
  pub while_serving : s.server.phase ≡ serving → tokens s c ≡ one_if (contains c s.pool)
  pub tracked : (s.connections c).is_open ≡ contains c s.pool
  pub complete : 0 < inside c s.server → (s.connections c).parser.finished ≡ true
  pub fresh : s.accepted ≤ c → contains c s.pool ≡ false

-- An action on a connection that nothing else holds.
pub perform-Holds_self :
    (c : ℕ) (k : Connection) (a : Action) (s : System)
    → a ≢ nothing
    → inside c s.server ≡ 0
    → (s.server.phase ≡ serving → contains c s.pool ≡ true)
    → k.is_open ≡ contains c s.pool
    → (s.accepted ≤ c → contains c s.pool ≡ false)
    → (a ≡ enqueue → k.parser.finished ≡ true)
    → Holds (perform c (k, a) s) c
unfolding perform
perform-Holds_self c k do_read s n z p t f e = record {
  at_most = omega (arith, tokens-perform_self c k do_read s, z);
  while_serving = λ x. tokens-perform_self c k do_read s ∙ rw (z, p x) refl;
  tracked = rw (same c) t;
  complete = λ l. absurd (omega (arith, z));
  fresh = f;
}
perform-Holds_self c k do_write s n z p t f e = record {
  at_most = omega (arith, tokens-perform_self c k do_write s, z);
  while_serving = λ x. tokens-perform_self c k do_write s ∙ rw (z, p x) refl;
  tracked = rw (same c) t;
  complete = λ l. absurd (omega (arith, z));
  fresh = f;
}
perform-Holds_self c k enqueue s n z p t f e = record {
  at_most = omega (arith, tokens-perform_self c k enqueue s, z);
  while_serving = λ x. tokens-perform_self c k enqueue s ∙ rw (z, p x) refl;
  tracked = rw (same c) t;
  complete = λ l. rw (same c) (e refl);
  fresh = f;
}
perform-Holds_self c k close s n z p t f e = record {
  at_most = omega (arith, tokens-perform_self c k close s, z);
  while_serving = λ x. tokens-perform_self c k close s ∙ rw (z, erased) refl;
  tracked = rw (same c, erased) refl;
  complete = λ l. absurd (omega (arith, z));
  fresh = λ l. erased;
}
  where
    erased : contains c (erase c s.pool) ≡ false
    erased = contains-erase c c s.pool ∙ rw (same c) refl
perform-Holds_self c k nothing s n z p t f e = absurd (n refl)

-- An action leaves the other connections alone.
perform-Holds_other :
    (c d : ℕ) (k : Connection) (a : Action) (s : System)
    → (d == c) ≡ false
    → Holds s d
    → Holds (perform c (k, a) s) d
unfolding perform
perform-Holds_other c d k do_read s n h = record {
  at_most = omega (arith, tokens-perform_other c d k do_read s n, h.at_most);
  while_serving = λ x. tokens-perform_other c d k do_read s n ∙ h.while_serving x;
  tracked = rw n h.tracked;
  complete = λ l. rw n (h.complete l);
  fresh = h.fresh;
}
perform-Holds_other c d k do_write s n h = record {
  at_most = omega (arith, tokens-perform_other c d k do_write s n, h.at_most);
  while_serving = λ x. tokens-perform_other c d k do_write s n ∙ h.while_serving x;
  tracked = rw n h.tracked;
  complete = λ l. rw n (h.complete l);
  fresh = h.fresh;
}
perform-Holds_other c d k enqueue s n h = record {
  at_most = omega (arith, tokens-perform_other c d k enqueue s n, h.at_most);
  while_serving = λ x. tokens-perform_other c d k enqueue s n ∙ h.while_serving x;
  tracked = rw n h.tracked;
  complete = λ l. rw n (h.complete (omega (arith, inside-perform_other c d k enqueue s n)));
  fresh = h.fresh;
}
perform-Holds_other c d k close s n h = record {
  at_most = omega (arith, tokens-perform_other c d k close s n, h.at_most);
  while_serving =
      λ x. tokens-perform_other c d k close s n ∙ h.while_serving x ∙ ap one_if (sym kept);
  tracked = rw n (h.tracked ∙ sym kept);
  complete = λ l. rw n (h.complete l);
  fresh = λ l. kept ∙ h.fresh l;
}
  where
    kept : contains d (erase c s.pool) ≡ contains d s.pool
    kept = contains-erase c d s.pool ∙ rw n refl
perform-Holds_other c d k nothing s n h = record {
  at_most = omega (arith, tokens-perform_other c d k nothing s n, h.at_most);
  while_serving = λ x. tokens-perform_other c d k nothing s n ∙ h.while_serving x;
  tracked = rw n h.tracked;
  complete = λ l. rw n (h.complete l);
  fresh = h.fresh;
}

pub perform-Holds :
    (c d : ℕ) (result : Connection × Action) (s : System)
    → ((d == c) ≡ false → Holds s d)
    → Holds (perform c result s) c
    → Holds (perform c result s) d
perform-Holds c d result s other self = elim (Bool-cases (d == c)) [
  | inl e ↦ subst (Holds (perform c result s)) (sym ((==_iff d c).0 e)) self
  | inr n ↦ perform-Holds_other c d result.0 result.1 s n (other n)
]

-- A connection with an operation on its socket is nowhere else, and its socket is open.
pub outside :
    (s : System) (c : ℕ) (op : Operation)
    → s.server.phase ≡ serving
    → s.pending c ≡ some op
    → Holds s c
    → (inside c s.server ≡ 0) × (contains c s.pool ≡ true)
outside s c op x p h =
    let one : operating (s.pending c) ≡ 1 = ap operating p in
    (omega (arith, one, h.at_most), ground (arith, one, h.while_serving x))

pub accepted-Holds :
    (s : System)
    → s.server.phase ≡ serving
    → ((c : ℕ) → Holds s c)
    → (d : ℕ)
    → Holds (perform s.accepted (Connection.start Connection.accepted_connection) (accept_into s)) d
unfolding Connection.start
accepted-Holds s x h d =
    perform-Holds s.accepted d (Connection.start Connection.accepted_connection) (accept_into s)
      (others (h d))
      (perform-Holds_self s.accepted _ do_read (accept_into s) (λ e. cc) nowhere (λ y. inserted)
        (sym inserted) (λ l. absurd (omega arith)) (λ e. absurd (cc)))
  where
    others : Holds s d → (d == s.accepted) ≡ false → Holds (accept_into s) d
    others k n = record {
      at_most = k.at_most;
      while_serving = λ y. k.while_serving y ∙ ap one_if (sym kept);
      tracked = k.tracked ∙ sym kept;
      complete = k.complete;
      fresh = λ l. kept ∙ k.fresh (omega arith);
    }
      where
        kept : contains d (insert s.accepted s.pool) ≡ contains d s.pool
        kept = contains-insert s.accepted d s.pool ∙ rw (flip s.accepted d n) refl

    held : Holds s s.accepted
    held = h s.accepted

    nowhere : inside s.accepted s.server ≡ 0
    nowhere = ground (arith, held.while_serving x, held.fresh (omega arith))

    inserted : contains s.accepted (insert s.accepted s.pool) ≡ true
    inserted = contains-insert s.accepted s.accepted s.pool ∙ rw (same s.accepted) refl
