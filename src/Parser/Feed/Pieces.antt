-- ===== src/Parser/Feed/Pieces.antt =====
-- webcc/parser.cc: `Parse` on a message that arrives in pieces.
use mathlib.Core.Path.{subst}
use devops_workshop.Parser.State.{
  Parser, Kind, of_request, of_response, Env, Outcome, ok, reject, throws, spent, ◌>>=◌,
}
use devops_workshop.Parser.HeaderLines.{headers_loop, unerased, parse_headers}
use devops_workshop.Parser.HeaderLines.Frame.{push}
use devops_workshop.Parser.HeaderLines.Pieces.{
  ok-injective, resume, resume_open, resume_ended, headers_loop-push,
}
use devops_workshop.Parser.Body.{parse_fixed_content}
use devops_workshop.Parser.Body.Fixed.{fixed-filled, fixed-append, fixed-push}
use devops_workshop.Parser.Feed.{takes_parts, parse_content, content_if_ended, parse}
use devops_workshop.Prelude.{
  suc, ◌≡◌, inl, inr, refl, sym, ap, ◌∙◌, true, false, [], ◌++◌, append_assoc, arith, if◌then◌else◌,
  Bool-cases, length, length-append,
}
use devops_workshop.Bytes.{Text}

-- An outcome but for the data that a refused message leaves unread: the next `Init` clears it.
abbrev pub settled : Outcome → Outcome
settled (reject p) = reject (record p { pending = [] })
settled o = o

settled-unerased :
    (s : Text) (o : Outcome) (f : Parser → Outcome)
    → settled (unerased s o >>= f) ≡ settled (o >>= f)
settled-unerased s (ok p) f = refl
settled-unerased s (reject p) f = refl
settled-unerased s throws f = refl
settled-unerased s spent f = refl

unerased-eq-ok : (s : Text) (o : Outcome) (p : Parser) → unerased s o ≡ ok p → o ≡ ok p
unerased-eq-ok s (ok q) p e = e
unerased-eq-ok s (reject q) p e = absurd (cc)
unerased-eq-ok s throws p e = absurd (cc)
unerased-eq-ok s spent p e = absurd (cc)

-- The headers announce neither chunks nor multipart form data.
pub record IsPlain (m : Parser) : Type 0 where
  pub no_chunks : m.chunked ≡ false
  pub no_parts : m.request.message.content_type.multipart ≡ false

takes_parts-plain :
    (env : Env) (k : Kind) (m : Parser)
    → m.request.message.content_type.multipart ≡ false
    → takes_parts env k m ≡ false
takes_parts-plain env of_request m e = e
takes_parts-plain env of_response m e = refl

module _ (env : Env) where
  parse_content-plain :
      (a : Text) (m : Parser)
      → IsPlain m
      → parse_content env a m ≡ parse_fixed_content env.boost a m
  unfolding parse_content
  parse_content-plain a m c = simp (c.no_chunks, takes_parts-plain env env.kind m c.no_parts)

  parse-open :
      (a : Text) (p : Parser)
      → p.header_ended ≡ false
      → parse env a p ≡ (parse_headers env (push a p) >>= content_if_ended env)
  unfolding parse
  parse-open a p u = rw u

  parse-ended :
      (a : Text) (p : Parser) → p.header_ended ≡ true → parse env a p ≡ parse_content env a p
  unfolding parse
  parse-ended a p u = rw u

  push-push : (a b : Text) (p : Parser) → push (a ++ b) p ≡ push b (push a p)
  push-push a b p = λ i. record p { pending = sym (append_assoc p.pending a b) i }

  -- The verdict on the longer data, in terms of the state after the first piece.
  resumed :
      (a b : Text) (p m : Parser)
      → p.header_ended ≡ false
      → parse_headers env (push a p) ≡ ok m
      → settled (parse env (a ++ b) p)
        ≡ settled (resume env b (suc (length (push b m).pending)) m >>= content_if_ended env)
  unfolding parse_headers
  resumed a b p m u e =
      let whole = push b (push a p) in
      let longer = length-append (p.pending ++ a) b in
      let rest = length-append m.pending b in
      ap settled (parse-open (a ++ b) p u)
      ∙ ap (λ x. settled (parse_headers env x >>= content_if_ended env)) (push-push a b p)
      ∙ settled-unerased whole.pending (headers_loop env (suc (length whole.pending)) whole)
          (content_if_ended env)
      ∙ ap (λ o. settled (o >>= content_if_ended env))
          (headers_loop-push env b (suc (length (p.pending ++ a))) (suc (length whole.pending))
            (suc (length (push b m).pending)) (push a p) m u
            (unerased-eq-ok (p.pending ++ a)
              (headers_loop env (suc (length (p.pending ++ a))) (push a p)) m e)
            (omega arith) (omega arith))

  -- Headers that are not complete: the next call goes on where the first has stopped.
  headers_later :
      (a b : Text) (p m : Parser)
      → p.header_ended ≡ false
      → parse_headers env (push a p) ≡ ok m
      → m.header_ended ≡ false
      → settled (parse env (a ++ b) p) ≡ settled (parse env b m)
  unfolding parse_headers
  headers_later a b p m u e v =
      resumed a b p m u e
      ∙ ap (λ o. settled (o >>= content_if_ended env))
          (resume_open env b (suc (length (push b m).pending)) m v)
      ∙ sym (
          settled-unerased (push b m).pending
            (headers_loop env (suc (length (push b m).pending)) (push b m)) (content_if_ended env))
      ∙ sym (ap settled (parse-open b m v))

  ended_now : (m : Parser) → m.header_ended ≡ true → content_if_ended env m ≡ parse_content env [] m
  ended_now m v = ap (λ c. if c then parse_content env [] m else ok m) v

  open_now : (m : Parser) → m.header_ended ≡ false → content_if_ended env m ≡ ok m
  open_now m v = ap (λ c. if c then parse_content env [] m else ok m) v

  first_call :
      (a : Text) (p m : Parser)
      → p.header_ended ≡ false
      → parse_headers env (push a p) ≡ ok m
      → parse env a p ≡ content_if_ended env m
  first_call a p m u e = parse-open a p u ∙ ap (λ o. o >>= content_if_ended env) e

  -- Headers that are complete, in front of content of a known length.
  content_later :
      (a b : Text) (p m q : Parser)
      → p.header_ended ≡ false
      → parse_headers env (push a p) ≡ ok m
      → m.header_ended ≡ true
      → IsPlain m
      → parse_content env [] m ≡ ok q
      → q.finished ≡ false
      → settled (parse env (a ++ b) p) ≡ settled (parse env b q)
  content_later a b p m q u e v c r w =
      let fixed = sym (parse_content-plain [] m c) ∙ r in
      let (h, s) = fixed-filled env.boost [] m q fixed w in
      resumed a b p m u e
      ∙ ap (λ o. settled (o >>= content_if_ended env))
          (resume_ended env b (suc (length (push b m).pending)) m v)
      ∙ ap settled (
          ended_now (push b m) v
          ∙ parse_content-plain [] (push b m)
              (record { no_chunks = c.no_chunks; no_parts = c.no_parts })
          ∙ fixed-push env.boost b m h
          ∙ fixed-append env.boost [] b m q fixed w
          ∙ sym (
              parse-ended b q (ap (λ (x : Parser). x.header_ended) (sym s) ∙ v)
              ∙ parse_content-plain b q
                  (subst IsPlain s (record { no_chunks = c.no_chunks; no_parts = c.no_parts }))))

  -- A message whose headers are not complete yet, and announce neither chunks nor multipart form
  -- data, is parsed in two calls as it would be in one, wherever it is cut, if the first call
  -- accepts its piece and the message is not complete with it. The two verdicts and the two states
  -- are equal, but for unread data of a refused message.
  pub parse-append :
      (a b : Text) (p m q : Parser)
      → p.header_ended ≡ false
      → parse_headers env (push a p) ≡ ok m
      → IsPlain m
      → parse env a p ≡ ok q
      → q.finished ≡ false
      → settled (parse env (a ++ b) p) ≡ settled (parse env b q)
  parse-append a b p m q u e c r w = elim (Bool-cases m.header_ended) [
    | inl v ↦
        content_later a b p m q u e v c (sym (ended_now m v) ∙ sym (first_call a p m u e) ∙ r) w
    | inr v ↦
        headers_later a b p m u e v
        ∙ ap (λ x. settled (parse env b x))
            (ok-injective m q (sym (open_now m v) ∙ sym (first_call a p m u e) ∙ r))
  ]

  -- The same for a piece that the headers do not end in, whatever the content will be.
  pub parse-append_headers :
      (a b : Text) (p q : Parser)
      → p.header_ended ≡ false
      → parse_headers env (push a p) ≡ ok q
      → q.header_ended ≡ false
      → (parse env a p ≡ ok q) × (settled (parse env (a ++ b) p) ≡ settled (parse env b q))
  parse-append_headers a b p q u e v =
      (first_call a p q u e ∙ open_now q v, headers_later a b p q u e v)
