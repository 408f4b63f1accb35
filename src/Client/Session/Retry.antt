-- ===== src/Client/Session/Retry.antt =====
-- webcc/client_session.cc: `Send` on a connection that the server has closed, and the connection that
-- it leaves in the pool.
use devops_workshop.Http.Request.{Request}
use devops_workshop.Parser.State.{Env, init_response}
use devops_workshop.Client.{
  Error, no_error, schema_error, host_resolve_error, endpoint_connect_error, socket_read_error,
  socket_write_error, http_error, is_ok, Client, new_client, Exchange, Reading, returns, escapes,
  waits, restarted,
}
use devops_workshop.Client as Client
use devops_workshop.Client.Key.{Key, key_of}
use devops_workshop.Client.Pool.{Pool, get}
use devops_workshop.Client.Session.{Result, settle, retry, send_with, send}
use devops_workshop.Prelude.{◌≡◌, refl, Bool, true, false, not, some, [], if◌then◌else◌}

first-if :
    (b : Bool) (x y z w : Result × Pool)
    → x.0 ≡ z.0
    → y.0 ≡ w.0
    → (if b then x else y).0 ≡ (if b then z else w).0
first-if true x y z w e f = e
first-if false x y z w e f = f

-- The result does not depend on the pool.
settle_result :
    (reuse again : Bool) (key : Key) (o : Reading) (p q : Pool)
    → (settle reuse key o p).0 ≡ (settle again key o q).0
unfolding settle
settle_result reuse again key (returns c) p q = first-if (not (is_ok c.error)) _ _ _ _ refl refl
settle_result reuse again key (escapes c) p q = refl
settle_result reuse again key (waits c) p q = refl

module _ (env : Env) where
  -- A connection of the pool that the server has closed meanwhile makes no difference to the caller:
  -- where nothing can be written to it, `Send` has the result that it has with an empty pool, on what
  -- the second attempt meets.
  pub send-stale :
      (r : Request) (first again later : Exchange) (pool : Pool) (c : Client)
      → get (key_of r.url) pool ≡ some c
      → first.writes ≡ false
      → (send env r first again pool).0 ≡ (send env r again later []).0
  unfolding send send_with retry Client.request restarted init_response get
  send-stale r first again later pool c e w =
      rw (e, w)
        (settle_result true false (key_of r.url)
          (Client.connect_first env again (restarted new_client)) pool [])
