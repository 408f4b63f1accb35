-- ===== src/Client/Session/Open.antt =====
-- webcc/client_session.cc: the pool of a session holds no client whose socket is closed.
use devops_workshop.Parser.State.{Env}
use devops_workshop.Http.Request.{Request}
use devops_workshop.Client.{
  Error, no_error, schema_error, host_resolve_error, endpoint_connect_error, socket_read_error,
  socket_write_error, http_error, is_ok, Client, new_client, Exchange, Reading, returns, escapes,
  waits,
}
use devops_workshop.Client as Client
use devops_workshop.Client.Verdict.{Verdict, request-Verdict}
use devops_workshop.Client.Key.{Key, key_of}
use devops_workshop.Client.Pool.{Pool, get, AllOpen, add-AllOpen, remove-AllOpen}
use devops_workshop.Client.Session.{Result, is_write_error, settle, retry, send_with, send}
use devops_workshop.Prelude.{
  ◌≡◌, inl, inr, refl, Bool, true, false, not, Option, none, some, if◌then◌else◌, Bool-cases,
}

AllOpen-if :
    (b : Bool) (p q : Pool)
    → (b ≡ true → AllOpen p)
    → (b ≡ false → AllOpen q)
    → AllOpen (if b then p else q)
AllOpen-if true p q f g = f refl
AllOpen-if false p q f g = g refl

-- a property of the pool that a choice leaves
second-if :
    (b : Bool) (x y : Result × Pool) → AllOpen x.1 → AllOpen y.1 → AllOpen (if b then x else y).1
second-if true x y f g = f
second-if false x y f g = g

module _ (env : Env) where
  settle-AllOpen :
      (reuse : Bool) (key : Key) (o : Reading) (pool : Pool)
      → Verdict env o
      → AllOpen pool
      → AllOpen (settle reuse key o pool).1
  unfolding settle
  settle-AllOpen reuse key (returns c) pool v h =
      second-if (not (is_ok c.error)) _ _
        (AllOpen-if reuse _ _ (λ _. remove-AllOpen key pool h) (λ _. h))
        (AllOpen-if reuse _ _
          (λ _.
            AllOpen-if c.closed _ _ (λ _. remove-AllOpen key pool h)
              (λ o. add-AllOpen key c pool o h))
          (λ _. AllOpen-if c.closed _ _ (λ _. h) (λ o. add-AllOpen key c pool o h)))
  settle-AllOpen reuse key (escapes c) pool v h =
      AllOpen-if reuse _ _ (λ _. add-AllOpen key c pool v h) (λ _. h)
  settle-AllOpen reuse key (waits c) pool v h =
      AllOpen-if reuse _ _ (λ _. add-AllOpen key c pool v h) (λ _. h)

  pub retry-Verdict :
      (again : Exchange) (o : Reading) → Verdict env o → Verdict env (retry env again o)
  unfolding retry
  retry-Verdict again (returns c) v = elim (Bool-cases (is_write_error c.error)) [
    | inl e ↦ rw e (request-Verdict env true again c)
    | inr e ↦ rw e v
  ]
  retry-Verdict again (escapes c) v = v
  retry-Verdict again (waits c) v = v

  send_with-AllOpen :
      (o : Option Client) (key : Key) (first again : Exchange) (pool : Pool)
      → AllOpen pool
      → AllOpen (send_with env o key first again pool).1
  unfolding send_with
  send_with-AllOpen none key first again pool h =
      settle-AllOpen false key (Client.request env true first new_client) pool
        (request-Verdict env true first new_client) h
  send_with-AllOpen (some c) key first again pool h =
      settle-AllOpen true key (retry env again (Client.request env false first c)) pool
        (retry-Verdict again (Client.request env false first c) (request-Verdict env false first c))
        h

  -- Every client in the pool of a session has its socket open, and `Send` keeps it so, whatever the
  -- network does, also where it throws.
  pub send-AllOpen :
      (r : Request) (first again : Exchange) (pool : Pool)
      → AllOpen pool
      → AllOpen (send env r first again pool).1
  unfolding send
  send-AllOpen r first again pool h =
      send_with-AllOpen (get (key_of r.url) pool) (key_of r.url) first again pool h
