-- ===== src/Client/Session/Pooled.antt =====
-- webcc/client_session.cc: the connection that a response leaves in the pool.
use devops_workshop.Http.Message.{Message, is_connection_keep_alive}
use devops_workshop.Http.Request.{Request}
use devops_workshop.Numbers.{ℤ}
use devops_workshop.Parser.State.{Env}
use devops_workshop.Client.{
  Error, no_error, schema_error, host_resolve_error, endpoint_connect_error, socket_read_error,
  socket_write_error, http_error, handshake_error, file_io_error, is_ok, Client, new_client,
  Exchange, Reading, returns, escapes, waits,
}
use devops_workshop.Client as Client
use devops_workshop.Client.Verdict.{Verdict, Tells, request-Verdict}
use devops_workshop.Client.Session.Open.{retry-Verdict}
use devops_workshop.Client.Key.{Key, key_of, equivalent_refl}
use devops_workshop.Client.Pool.{Pool, get, NodupKeys, get-add, get-remove}
use devops_workshop.Client.Session.{Result, responded, update_pool, settle, retry, send_with, send}
use devops_workshop.Prelude.{
  ◌≡◌, inl, inr, refl, ap, ◌∙◌, Bool, true, false, not, Option, none, some, Bool-cases,
}

abbrev pub is_some : Option Client → Bool
is_some none = false
is_some (some c) = true

abbrev message_or : Message → Result → Message
message_or d (responded m n) = m
message_or d _ = d

not-not : (b : Bool) → not (not b) ≡ b
not-not true = refl
not-not false = refl

-- The end of `Send` leaves the connection in the pool just if it is open.
update_pool-closed :
    (reuse closed : Bool) (key : Key) (c : Client) (pool : Pool)
    → c.closed ≡ closed
    → NodupKeys pool
    → (reuse ≡ false → get key pool ≡ none)
    → is_some (get key (update_pool reuse key c pool)) ≡ not closed
update_pool-closed true true key c pool e d h = rw (e, get-remove key pool d) refl
update_pool-closed true false key c pool e d h =
    simp (e, get-add key key c pool, equivalent_refl key)
update_pool-closed false true key c pool e d h = rw (e, h refl) refl
update_pool-closed false false key c pool e d h =
    simp (e, get-add key key c pool, equivalent_refl key)

module _ (env : Env) where
  -- what it means to leave the connection of the answer in the pool
  abbrev Pooled : Key → Result × Pool → Message → Type 0
  Pooled key (x, pool) m = is_some (get key pool) ≡ is_connection_keep_alive env.boost m

  ok-closed :
      (x : Error) (c : Client)
      → is_ok x ≡ true
      → Tells env x c
      → c.closed ≡ not (is_connection_keep_alive env.boost c.parser.request.message)
  ok-closed no_error c e t = t.1
  ok-closed schema_error c e t = absurd t
  ok-closed host_resolve_error c e t = cc
  ok-closed endpoint_connect_error c e t = cc
  ok-closed socket_read_error c e t = cc
  ok-closed socket_write_error c e t = cc
  ok-closed http_error c e t = cc
  ok-closed handshake_error c e t = cc
  ok-closed file_io_error c e t = cc

  settle-Pooled :
      (reuse : Bool) (key : Key) (o : Reading) (pool : Pool) (m : Message) (n : ℤ)
      → Verdict env o
      → NodupKeys pool
      → (reuse ≡ false → get key pool ≡ none)
      → (settle reuse key o pool).0 ≡ responded m n
      → Pooled key (settle reuse key o pool) m
  unfolding settle
  settle-Pooled reuse key (returns c) pool m n v d h e = elim (Bool-cases (is_ok c.error)) [
    | inl k ↦
        let same : c.parser.request.message ≡ m = ap (message_or m) (rw k at e) in
        rw k (
          update_pool-closed reuse c.closed key c pool refl d h
          ∙ ap not (ok-closed c.error c k v)
          ∙ not-not _
          ∙ ap (is_connection_keep_alive env.boost) same)
    | inr k ↦ cc
  ]
  settle-Pooled reuse key (escapes c) pool m n v d h e = cc
  settle-Pooled reuse key (waits c) pool m n v d h e = cc

  send_with-Pooled :
      (o : Option Client) (key : Key) (first again : Exchange) (pool : Pool) (m : Message) (n : ℤ)
      → get key pool ≡ o
      → NodupKeys pool
      → (send_with env o key first again pool).0 ≡ responded m n
      → Pooled key (send_with env o key first again pool) m
  unfolding send_with
  send_with-Pooled none key first again pool m n g d e =
      settle-Pooled false key (Client.request env true first new_client) pool m n
        (request-Verdict env true first new_client) d (λ _. g) e
  send_with-Pooled (some c) key first again pool m n g d e =
      settle-Pooled true key (retry env again (Client.request env false first c)) pool m n
        (retry-Verdict env again (Client.request env false first c)
          (request-Verdict env false first c))
        d (λ f. cc) e

  -- Behind a response the pool has a connection for the server of the request just if the response keeps
  -- the connection alive; no two entries of the pool have one key before.
  pub send-Pooled :
      (r : Request) (first again : Exchange) (pool : Pool) (m : Message) (n : ℤ)
      → NodupKeys pool
      → (send env r first again pool).0 ≡ responded m n
      → is_some (get (key_of r.url) (send env r first again pool).1)
        ≡ is_connection_keep_alive env.boost m
  unfolding send
  send-Pooled r first again pool m n d e =
      send_with-Pooled (get (key_of r.url) pool) (key_of r.url) first again pool m n refl d e
