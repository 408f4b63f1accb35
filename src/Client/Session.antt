-- ===== src/Client/Session.antt =====
-- webcc/client_session.h and client_session.cc: `ClientSession`. A client of the pool is shared with the
-- call that uses it, so the pool holds it as the call leaves it. The encoding of base64 is a parameter.
pub mod Open
pub mod Retry
pub mod Pooled
pub mod Merge
use devops_workshop.Boost.{Boost}
use devops_workshop.Http.Globals.{user_agent}
use devops_workshop.Http.Headers.{Headers, set, has}
use devops_workshop.Http.Message.{Message, set_header, set_content_type}
use devops_workshop.Http.Request.{Request, prepare_request}
use devops_workshop.Numbers.{ℤ}
use devops_workshop.Parser.State.{Env}
use devops_workshop.Client.{
  Error, socket_write_error, is_ok, Client, new_client, Exchange, Reading, returns, escapes, waits,
}
use devops_workshop.Client as Client
use devops_workshop.Client.Key.{Key, key_of}
use devops_workshop.Client.Pool.{Pool, get, add, remove}
use devops_workshop.Prelude.{
  Bool, true, false, not, ◌&&◌, Option, none, some, [], ◌∷◌, ◌++◌, if◌then◌else◌,
}
use devops_workshop.Bytes.{Text, codes, equal}

-- How a call of the session ends: with the response, with `Exception`, with an exception from elsewhere,
-- or not.
pub data Result : Type 0 where
  responded : Message → ℤ → Result
  raised : Error → Bool → Result
  escaped waiting : Result

pub record Session : Type 0 where
  pub content_type : Text
  pub charset : Text
  pub headers : Headers
  pub pool : Pool

-- `kSocketWriteError`
abbrev pub is_write_error : Error → Bool
is_write_error socket_write_error = true
is_write_error _ = false

-- the end of `Send`, on a response
abbrev pub update_pool : Bool → Key → Client → Pool → Pool
update_pool reuse key c pool =
    if reuse
    then if c.closed then remove key pool else add key c pool
    else if c.closed
    then pool
    else add key c pool

-- the branches of `Send` behind the calls of `Request`: the pool is updated
unfoldable pub settle : Bool → Key → Reading → Pool → Result × Pool
unfolding add remove
settle reuse key (returns c) pool =
    let response = responded c.parser.request.message c.parser.status in
    if not (is_ok c.error)
    then (raised c.error c.timed_out, if reuse then remove key pool else pool)
    else (response, update_pool reuse key c pool)
settle reuse key (escapes c) pool = (escaped, if reuse then add key c pool else pool)
settle reuse key (waits c) pool = (waiting, if reuse then add key c pool else pool)

module _ (env : Env) where
  -- The second attempt, where a reused connection cannot be written to; `again` is what it meets.
  unfoldable pub retry : Exchange → Reading → Reading
  unfolding Client.request
  retry again (returns c) =
      if is_write_error c.error then Client.request env true again c else returns c
  retry again (escapes c) = escapes c
  retry again (waits c) = waits c

  -- `Send` behind `pool_.Get(key)`
  unfoldable pub send_with : Option Client → Key → Exchange → Exchange → Pool → Result × Pool
  unfolding settle retry
  send_with none key first again pool =
      settle false key (Client.request env true first new_client) pool
  send_with (some c) key first again pool =
      settle true key (retry again (Client.request env false first c)) pool

  -- `Send`
  unfoldable pub send : Request → Exchange → Exchange → Pool → Result × Pool
  unfolding send_with
  send r first again pool = let key = key_of r.url in send_with (get key pool) key first again pool

module _ (boost : Boost) where
  -- the loop of `Request` over the headers of the session
  unfoldable pub add_missing : Headers → Message → Message
  unfolding has
  add_missing [] m = m
  add_missing ((name, value) ∷ hs) m =
      add_missing hs (if has boost name m.headers then m else set_header boost name value m)

  -- the content type of the session, where the request has none
  abbrev pub add_content_type : Session → Message → Message
  add_content_type s m =
      if not (equal s.content_type []) && not (has boost (codes "Content-Type") m.headers)
      then set_content_type boost s.content_type s.charset m
      else m

  -- the part of `Request` in front of `Send`; `none` is `Exception(kSchemaError)`
  unfoldable pub prepared : Text → Session → Request → Option Request
  unfolding add_missing
  prepared uuid s r =
      prepare_request boost uuid
        (record r { message = add_content_type s (add_missing s.headers r.message) })

  -- `InitHeaders`, in the constructor
  unfoldable pub new_session : Session
  unfolding set
  new_session = record {
    content_type = [];
    charset = [];
    headers = set boost (codes "Connection") (codes "Keep-Alive") (
        set boost (codes "Accept") (codes "*/*") (
          set boost (codes "Accept-Encoding") (codes "identity")
            (set boost (codes "User-Agent") user_agent [])));
    pool = [];
  }

  -- `SetHeader`
  abbrev pub set_session_header : Text → Text → Session → Session
  set_session_header key value s = record s { headers = set boost key value s.headers }

  -- `Auth`
  abbrev pub auth : Text → Text → Session → Session
  auth type credentials = set_session_header (codes "Authorization") (type ++ b' ' ∷ credentials)

  -- `AuthBasic`
  abbrev pub auth_basic : (Text → Text) → Text → Text → Session → Session
  auth_basic base64 login password = auth (codes "Basic") (base64 (login ++ b':' ∷ password))

  -- `AuthToken`
  abbrev pub auth_token : Text → Session → Session
  auth_token = auth (codes "Token")

module _ (env : Env) where
  abbrev pub send_prepared : Option Request → Exchange → Exchange → Session → Result × Session
  send_prepared none first again s = (raised Client.schema_error false, s)
  send_prepared (some r) first again s =
      let (result, pool) = send env r first again s.pool in (result, record s { pool = pool })

  -- `Request`
  unfoldable pub request : Text → Request → Exchange → Exchange → Session → Result × Session
  unfolding prepared send
  request uuid r first again s = send_prepared (prepared env.boost uuid s r) first again s
