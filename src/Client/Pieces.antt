-- ===== src/Client/Pieces.antt =====
-- webcc/client.cc: how a response is cut into reads makes no difference to the call.
use devops_workshop.Parser.State.{
  Parser, Env, Outcome, ok, reject, throws, spent, new_parser, of_responses,
}
use devops_workshop.Parser.HeaderLines.{parse_headers}
use devops_workshop.Parser.HeaderLines.Frame.{push}
use devops_workshop.Parser.Feed.{parse}
use devops_workshop.Parser.Feed.Pieces.{IsPlain, settled, parse-append}
use devops_workshop.Client.{
  Client, Event, piece, Reading, returns, escapes, waits, cancel_timer, after_parse, on_piece,
  read_response,
}
use devops_workshop.Prelude.{ℕ, ◌≡◌, refl, sym, ap, ◌∙◌, false, List, [], ◌∷◌, ◌++◌}
use devops_workshop.Bytes.{Text, equal}

abbrev emptied : Client → Client
emptied c = record c { parser = record (c.parser) { pending = [] } }

abbrev unparsed : Client → Client
unparsed c = record c { parser = new_parser }

-- A reading but for the data that the parser leaves unread, and but for the parser of a call that does
-- not return: the next `Init` clears them.
abbrev pub tidy : Reading → Reading
tidy (returns c) = returns (emptied c)
tidy (escapes c) = escapes (unparsed c)
tidy (waits c) = waits (unparsed c)

module _ (env : Env) where
  after_parse-settled :
      (loop : Client → Reading) (o : Outcome) (c : Client)
      → tidy (after_parse env loop (settled o) c) ≡ tidy (after_parse env loop o c)
  after_parse-settled loop (ok p) c = refl
  after_parse-settled loop (reject p) c = refl
  after_parse-settled loop throws c = refl
  after_parse-settled loop spent c = refl

  goes_on :
      (loop : Client → Reading) (p : Parser) (c : Client)
      → p.finished ≡ false
      → c.closed ≡ false
      → after_parse env loop (ok p) c ≡ loop (record c { parser = p })
  goes_on loop p c f o = simp (f, o)

  taken :
      (loop : Client → Reading) (x : ℕ) (s : Text) (c : Client)
      → on_piece env loop (x ∷ s) c
        ≡ after_parse env loop (parse (of_responses env) (x ∷ s) c.parser) c
  taken loop x s c = unfold equal in refl

  other_parser :
      (loop : Client → Reading) (o : Outcome) (c : Client) (q : Parser)
      → tidy (after_parse env loop o c) ≡ tidy (after_parse env loop o (record c { parser = q }))
  other_parser loop (ok p) c q = refl
  other_parser loop (reject p) c q = refl
  other_parser loop throws c q = refl
  other_parser loop spent c q = refl

  -- A response whose headers are not complete yet, and announce neither chunks nor multipart form
  -- data, is read in two reads, neither of them empty, as it would be in one, if the first is accepted
  -- and is not the whole response, and the socket is open. The data left unread, and the parser of a
  -- call that does not return, are not compared.
  pub read_response-append :
      (x y : ℕ) (a b : Text) (events : List Event) (c : Client) (m q : Parser)
      → c.closed ≡ false
      → c.parser.header_ended ≡ false
      → parse_headers (of_responses env) (push (x ∷ a) c.parser) ≡ ok m
      → IsPlain m
      → parse (of_responses env) (x ∷ a) c.parser ≡ ok q
      → q.finished ≡ false
      → tidy (read_response env (piece ((x ∷ a) ++ y ∷ b) ∷ events) c)
        ≡ tidy (read_response env (piece (x ∷ a) ∷ piece (y ∷ b) ∷ events) c)
  unfolding read_response
  read_response-append x y a b events c m q o h e plain r f =
      let env' = of_responses env in
      let d = cancel_timer c in
      let loop = read_response env events in
      let second : Client → Reading = λ k. on_piece env loop (y ∷ b) (cancel_timer k) in
      sym (after_parse-settled loop (parse env' ((x ∷ a) ++ y ∷ b) c.parser) d)
      ∙ ap (λ s. tidy (after_parse env loop s d))
          (parse-append env' (x ∷ a) (y ∷ b) c.parser m q h e plain r f)
      ∙ after_parse-settled loop (parse env' (y ∷ b) q) d
      ∙ other_parser loop (parse env' (y ∷ b) q) d q
      ∙ sym (
          ap (λ s. tidy (after_parse env second s d)) r
          ∙ ap tidy (goes_on second q d f o)
          ∙ ap tidy (taken loop y b (record d { parser = q })))
