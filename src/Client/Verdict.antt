-- ===== src/Client/Verdict.antt =====
-- webcc/client.cc: what a call of `Request` tells, and what it leaves of the socket.
use devops_workshop.Http.Message.{is_connection_keep_alive}
use devops_workshop.Parser.State.{Env, Outcome, ok, reject, throws, spent, of_responses}
use devops_workshop.Parser.Feed.{parse}
use devops_workshop.Client.{
  Error, no_error, schema_error, host_resolve_error, socket_read_error, Client, Event, piece,
  broken, deadline, Exchange, Reading, returns, escapes, waits, close, cancel_timer, keep_or_close,
  after_parse, on_piece, read_response, write_request, restarted, request,
}
use devops_workshop.Prelude.{
  ◌≡◌, refl, sym, ap, ◌∙◌, Bool, true, false, not, List, [], ◌∷◌, if◌then◌else◌,
}
use devops_workshop.Bytes.{Text, equal}

module _ (env : Env) where
  -- What an error says: without one, the response is complete, and the socket is closed where the
  -- response does not keep the connection; where the host does not resolve, there is no socket to
  -- close; with another error it is closed. Only a failed read can be a timeout.
  abbrev pub Tells : Error → Client → Type 0
  Tells no_error c =
      (c.parser.finished ≡ true)
      × (c.closed ≡ not (is_connection_keep_alive env.boost c.parser.request.message))
      × (c.timed_out ≡ false)
  Tells schema_error c = ⊥
  Tells host_resolve_error c = (c.closed ≡ false) × (c.timed_out ≡ false)
  Tells socket_read_error c = c.closed ≡ true
  Tells _ c = (c.closed ≡ true) × (c.timed_out ≡ false)

  -- The same for a call: one that does not return leaves the socket open.
  abbrev pub Verdict : Reading → Type 0
  Verdict (returns c) = Tells c.error c
  Verdict (escapes c) = c.closed ≡ false
  Verdict (waits c) = c.closed ≡ false

  -- nothing has failed so far
  abbrev Running : Client → Type 0
  Running c = (c.closed ≡ false) × (c.timed_out ≡ false) × (c.error ≡ no_error)

  Verdict-if :
      (b : Bool) (s t : Reading)
      → (b ≡ true → Verdict s)
      → (b ≡ false → Verdict t)
      → Verdict (if b then s else t)
  Verdict-if true s t f g = f refl
  Verdict-if false s t f g = g refl

  keep_or_close-Tells :
      (c : Client) → Running c → c.parser.finished ≡ true → Verdict (returns (keep_or_close env c))
  keep_or_close-Tells c h f =
      pick (is_connection_keep_alive env.boost c.parser.request.message) refl
    where
      pick :
          (b : Bool)
          → is_connection_keep_alive env.boost c.parser.request.message ≡ b
          → Verdict (returns (if b then c else close c))
      pick true e = rw h.2 (f, h.0 ∙ ap not (sym e), h.1)
      pick false e = rw h.2 (f, ap not (sym e), h.1)

  after_parse-Verdict :
      (loop : Client → Reading) (o : Outcome) (c : Client)
      → Running c
      → ((d : Client) → Running d → Verdict (loop d))
      → Verdict (after_parse env loop o c)
  after_parse-Verdict loop (ok p) c h next =
      Verdict-if p.finished _ _ (keep_or_close-Tells (record c { parser = p }) h) (λ _.
        Verdict-if c.closed _ _ (λ closed. cc (h.0, closed))
          (λ _. next (record c { parser = p }) h))
  after_parse-Verdict loop (reject p) c h next = (refl, h.1)
  after_parse-Verdict loop throws c h next = h.0
  after_parse-Verdict loop spent c h next = h.0

  on_piece-Verdict :
      (loop : Client → Reading) (arrived : Text) (c : Client)
      → Running c
      → ((d : Client) → Running d → Verdict (loop d))
      → Verdict (on_piece env loop arrived c)
  on_piece-Verdict loop arrived c h next =
      Verdict-if (equal arrived []) _ _ (λ _. refl)
        (λ _. after_parse-Verdict loop (parse (of_responses env) arrived c.parser) c h next)

  read_response-Verdict :
      (events : List Event) (c : Client) → Running c → Verdict (read_response env events c)
  unfolding read_response
  read_response-Verdict [] c h = h.0
  read_response-Verdict (piece arrived ∷ events) c h =
      on_piece-Verdict (read_response env events) arrived (cancel_timer c) h
        (read_response-Verdict events)
  read_response-Verdict (broken ∷ events) c h = refl
  read_response-Verdict (deadline ∷ events) c h =
      Verdict-if c.timer_canceled _ _ (λ _. read_response-Verdict events c h) (λ _. refl)

  write_request-Verdict : (x : Exchange) (c : Client) → Running c → Verdict (write_request env x c)
  write_request-Verdict x c h =
      Verdict-if x.writes _ _ (λ _. read_response-Verdict x.events c h) (λ _. (refl, h.1))

  -- The error of a call of `Request` tells the state it leaves: without one the response is complete,
  -- and the socket is closed just where the response asks for it; where the host does not resolve,
  -- nothing is closed; with any other error the socket is closed, and only a failed read is a timeout.
  -- A call that an exception ends, or that still waits, leaves the socket open.
  pub request-Verdict :
      (connect : Bool) (x : Exchange) (c : Client) → Verdict (request env connect x c)
  unfolding request restarted
  request-Verdict true x c =
      Verdict-if x.resolves _ _
        (λ _.
          Verdict-if x.connects _ _ (λ _. write_request-Verdict x (restarted c) (refl, refl, refl))
            (λ _. (refl, refl)))
        (λ _. (refl, refl))
  request-Verdict false x c = write_request-Verdict x (restarted c) (refl, refl, refl)
