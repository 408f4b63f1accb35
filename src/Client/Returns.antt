-- ===== src/Client/Returns.antt =====
-- webcc/client.cc: a client that waits for a response is not kept waiting for ever.
use devops_workshop.Parser.State.{
  Parser, Env, Outcome, ok, reject, throws, spent, ◌>>=◌, of_responses,
}
use devops_workshop.Parser.HeaderLines.{parse_headers}
use devops_workshop.Parser.HeaderLines.Progress.{Returns, parse_headers-Returns}
use devops_workshop.Parser.Body.Chunks.Progress.{Ends, parse_chunked_content-Ends}
use devops_workshop.Parser.Feed.{parse_content, content_if_ended, parse}
use devops_workshop.Parser.Feed.Ends.{Ends-if, parse_fixed_content-Ends}
use devops_workshop.Client.{
  Client, Event, piece, broken, deadline, Exchange, Reading, waits, cancel_timer, after_parse,
  read_response, write_request, restarted, request,
}
use devops_workshop.Prelude.{Bool, true, false, List, [], ◌∷◌, ◌++◌, if◌then◌else◌}
use devops_workshop.Bytes.{Text, equal}

-- The call is over.
abbrev pub IsOver : Reading → Type 0
IsOver (waits c) = ⊥
IsOver _ = Unit

-- The connection breaks at some time.
abbrev pub Breaks : List Event → Type 0
Breaks [] = ⊥
Breaks (broken ∷ events) = Unit
Breaks (_ ∷ events) = Breaks events

IsOver-if : (b : Bool) (s t : Reading) → IsOver s → IsOver t → IsOver (if b then s else t)
IsOver-if true s t e f = e
IsOver-if false s t e f = f

module _ (env : Env) where
  response_content-Ends :
      (arrived : Text) (p : Parser) → Ends (parse_content (of_responses env) arrived p)
  unfolding parse_content
  response_content-Ends arrived p =
      Ends-if p.chunked _ _ (parse_chunked_content-Ends env.boost arrived p)
        (parse_fixed_content-Ends (of_responses env) arrived p)

  content_if_ended-Ends :
      (o : Outcome) → Returns o → Ends (o >>= content_if_ended (of_responses env))
  content_if_ended-Ends (ok q) r = Ends-if q.header_ended _ _ (response_content-Ends [] q) tt
  content_if_ended-Ends (reject q) r = tt
  content_if_ended-Ends throws r = tt
  content_if_ended-Ends spent r = r

  -- `Parse` of a response ends, whatever arrives.
  parse_response-Ends : (arrived : Text) (p : Parser) → Ends (parse (of_responses env) arrived p)
  unfolding parse
  parse_response-Ends arrived p =
      let q = record p { pending = p.pending ++ arrived } in
      Ends-if p.header_ended _ _ (response_content-Ends arrived p) (
        content_if_ended-Ends (parse_headers (of_responses env) q)
          (parse_headers-Returns (of_responses env) q))

  after_parse-IsOver :
      (loop : Client → Reading) (o : Outcome) (c : Client)
      → Ends o
      → ((d : Client) → IsOver (loop d))
      → IsOver (after_parse env loop o c)
  after_parse-IsOver loop (ok p) c e h =
      IsOver-if p.finished _ _ tt (IsOver-if c.closed _ _ tt (h (record c { parser = p })))
  after_parse-IsOver loop (reject p) c e h = tt
  after_parse-IsOver loop throws c e h = tt
  after_parse-IsOver loop spent c e h = e

  read_response-IsOver :
      (events : List Event) (c : Client) → Breaks events → IsOver (read_response env events c)
  unfolding read_response
  read_response-IsOver [] c b = b
  read_response-IsOver (broken ∷ events) c b = tt
  read_response-IsOver (deadline ∷ events) c b =
      IsOver-if c.timer_canceled _ _ (read_response-IsOver events c b) tt
  read_response-IsOver (piece arrived ∷ events) c b = IsOver-if (equal arrived []) _ _ tt (
      after_parse-IsOver (read_response env events)
        (parse (of_responses env) arrived (cancel_timer c).parser) (cancel_timer c)
        (parse_response-Ends arrived (cancel_timer c).parser)
        (λ d. read_response-IsOver events d b))

  write_request-IsOver :
      (x : Exchange) (c : Client) → Breaks x.events → IsOver (write_request env x c)
  write_request-IsOver x c b = IsOver-if x.writes _ _ (read_response-IsOver x.events c b) tt

  -- A call of `Request` is over at the latest when its connection breaks, whatever arrives before:
  -- it returns, or an exception leaves it.
  pub request-IsOver :
      (connect : Bool) (x : Exchange) (c : Client)
      → Breaks x.events
      → IsOver (request env connect x c)
  unfolding request
  request-IsOver true x c b =
      IsOver-if x.resolves _ _
        (IsOver-if x.connects _ _ (write_request-IsOver x (restarted c) b) tt) tt
  request-IsOver false x c b = write_request-IsOver x (restarted c) b
