-- ===== src/Server/Listening/Accepts.antt =====
-- webcc/server.cc: which servers run and listen, and the connections that they start.
use mathlib.Core.Path.{subst}
use devops_workshop.Server.Listening.{
  Port, Acceptor, new_server, await_stop, async_accept, start_workers, run_context, run, begun,
  Event, accepted, refused, signal, Accepting, on_accept, on_signal, on_events,
}
use devops_workshop.Prelude.{
  ℕ, suc, ◌+◌, ◌≡◌, inl, inr, refl, ap, ◌∙◌, Bool, true, false, not, ◌&&◌, Option, none, some, List,
  [], ◌∷◌, arith, if◌then◌else◌, Bool-cases,
}

-- the accepts that succeed before the first signal
abbrev pub successes : List Event → ℕ
successes [] = 0
successes (accepted ∷ es) = suc (successes es)
successes (refused ∷ es) = successes es
successes (signal ∷ es) = 0

on_accept-closed :
    (ok : Bool) (s : Accepting)
    → s.acceptor.is_open ≡ false
    → ((on_accept ok s).started ≡ s.started) × ((on_accept ok s).acceptor.is_open ≡ false)
unfolding on_accept
on_accept-closed ok s c = elim (Bool-cases s.outstanding) [
  | inl o ↦ rw (o, c) (refl, refl)
  | inr o ↦ rw o (refl, c)
]

on_events-closed :
    (es : List Event) (s : Accepting)
    → s.acceptor.is_open ≡ false
    → (on_events es s).started ≡ s.started
unfolding on_events
on_events-closed [] s c = refl
on_events-closed (accepted ∷ es) s c =
    let (n, d) = on_accept-closed true s c in on_events-closed es (on_accept true s) d ∙ n
on_events-closed (refused ∷ es) s c =
    let (n, d) = on_accept-closed false s c in on_events-closed es (on_accept false s) d ∙ n
on_events-closed (signal ∷ es) s c = unfold on_signal in on_events-closed es (on_signal s) refl

on_accept-open :
    (ok : Bool) (s : Accepting)
    → s.acceptor.is_open ≡ true
    → s.outstanding ≡ true
    → on_accept ok s ≡ (if ok then record s { started = suc s.started } else s)
unfolding on_accept
on_accept-open ok s o p =
    ap
      (λ b.
        if not b
        then s
        else if not s.acceptor.is_open
        then record s { outstanding = false }
        else if ok
        then record s { started = suc s.started }
        else s)
      p
    ∙ ap
        (λ b.
          if not b
          then record s { outstanding = false }
          else if ok
          then record s { started = suc s.started }
          else s)
        o

-- A server whose acceptor is open and waits starts one connection for each accept that succeeds before
-- the first signal, and none behind it.
pub on_events-started :
    (es : List Event) (s : Accepting)
    → s.acceptor.is_open ≡ true
    → s.outstanding ≡ true
    → (on_events es s).started ≡ successes es + s.started
unfolding on_events
on_events-started [] s o p = omega arith
on_events-started (accepted ∷ es) s o p =
    ap (λ t. (on_events es t).started) (on_accept-open true s o p)
    ∙ on_events-started es (record s { started = suc s.started }) o p
    ∙ shift (successes es) s.started
  where
    shift : (a b : ℕ) → a + suc b ≡ suc a + b
    shift a b = omega arith
on_events-started (refused ∷ es) s o p =
    ap (λ t. (on_events es t).started) (on_accept-open false s o p) ∙ on_events-started es s o p
on_events-started (signal ∷ es) s o p =
    (unfold on_signal in on_events-closed es (on_signal s) refl) ∙ none_added s.started
  where
    none_added : (n : ℕ) → n ≡ 0 + n
    none_added n = omega arith

-- What a constructed server does; the events come behind `Run`.
abbrev Right : List Event → Bool → Bool → Bool → Option Acceptor → Type 0
Right es opens binds listens none = Unit
Right es opens binds listens (some a) =
    (run a ≡ (if opens then await_stop ∷ async_accept ∷ start_workers ∷ run_context ∷ [] else []))
    × (a.listening ≡ opens && (binds && listens))
    × ((on_events es (begun a)).started ≡ (if opens then successes es else 0))

open-Right :
    (es : List Event) (b l : Bool)
    → (on_events es (begun (record { is_open = true; bound = b; listening = l }))).started
      ≡ successes es
unfolding begun
open-Right es b l =
    on_events-started es (begun (record { is_open = true; bound = b; listening = l })) refl refl
    ∙ nothing_before (successes es)
  where
    nothing_before : (n : ℕ) → n + 0 ≡ n
    nothing_before n = omega arith

new_server-Right :
    (es : List Event) (port : Port) → Right es port.opens port.binds port.listens (new_server port)
unfolding new_server run begun
new_server-Right es port = go port.opens port.sets_option port.binds port.listens
  where
    go :
        (o s b l : Bool)
        → Right es o b l (
            if not o
            then some (record { is_open = false; bound = false; listening = false })
            else if not s
            then none
            else if not b
            then some (record { is_open = true; bound = false; listening = false })
            else if not l
            then some (record { is_open = true; bound = true; listening = false })
            else some (record { is_open = true; bound = true; listening = true }))
    go false s b l = (refl, refl, on_events-closed es _ refl)
    go true false b l = tt
    go true true false l = (refl, refl, open-Right es false false)
    go true true true false = (refl, refl, open-Right es true false)
    go true true true true = (refl, refl, open-Right es true true)

-- A server whose constructor returns makes the four calls of `Run` in their order if its port could be
-- opened, also if it could not be bound or `listen` failed, and none of them otherwise; it listens
-- exactly if the port could be opened and bound and `listen` succeeded; and behind `Run` it starts one
-- connection for each accept that succeeds before the first signal, if the port could be opened, and
-- none otherwise.
pub run-new_server :
    (port : Port) (a : Acceptor) (es : List Event)
    → new_server port ≡ some a
    → (run a
        ≡ (if port.opens then await_stop ∷ async_accept ∷ start_workers ∷ run_context ∷ [] else []))
      × (a.listening ≡ port.opens && (port.binds && port.listens))
      × ((on_events es (begun a)).started ≡ (if port.opens then successes es else 0))
run-new_server port a es e =
    subst (Right es port.opens port.binds port.listens) e (new_server-Right es port)
