-- ===== src/Parser/Feed/Ends.antt =====
-- webcc/parser.cc and request_parser.cc: `Parse` as a whole ends.
use devops_workshop.Parser.State.{
  Parser, Step, ended, Env, Outcome, ok, reject, throws, spent, ◌>>=◌, finish,
}
use devops_workshop.Parser.HeaderLines.{take_line, round, headers_loop, unerased, parse_headers}
use devops_workshop.Parser.HeaderLines.Frame.{take_line-Keeps}
use devops_workshop.Parser.HeaderLines.Progress.{Returns, parse_headers-Returns}
use devops_workshop.Parser.Body.{is_content_full, filled, parse_fixed_content}
use devops_workshop.Parser.Body.Chunks.Progress.{Ends, parse_chunked_content-Ends}
use devops_workshop.Parser.Multipart.Termination.{parse_multipart_content-Ends}
use devops_workshop.Parser.Feed.{
  multipart_fuel, takes_parts, parse_content, content_if_ended, parse,
}
use devops_workshop.Http.Globals.{invalid_length}
use devops_workshop.Prelude.{
  ℕ, zero, suc, ◌≡◌, ◌≢◌, refl, sym, ◌∙◌, Bool, true, false, not, Option, none, some, [], ◌∷◌, ◌++◌,
  arith, length, ◌==◌, if◌then◌else◌,
}
use devops_workshop.Bytes.{Text, next_line}

-- An outcome whose state, where there is one to go on with, is in some step.
abbrev InStep : Step → Outcome → Type 0
InStep s (ok q) = q.step ≡ s
InStep s _ = Unit

bind-InStep :
    (s : Step) (o : Outcome) (f : Parser → Outcome)
    → ((q : Parser) → o ≡ ok q → InStep s (f q))
    → InStep s (o >>= f)
bind-InStep s (ok q) f h = h q refl
bind-InStep s (reject q) f h = tt
bind-InStep s throws f h = tt
bind-InStep s spent f h = tt

unerased-InStep :
    (s : Step) (pending : Text) (o : Outcome) → InStep s o → InStep s (unerased pending o)
unerased-InStep s pending (ok q) h = h
unerased-InStep s pending (reject q) h = tt
unerased-InStep s pending throws h = tt
unerased-InStep s pending spent h = tt

pub Ends-if : (b : Bool) (s t : Outcome) → Ends s → Ends t → Ends (if b then s else t)
Ends-if true s t e f = e
Ends-if false s t e f = f

module _ (env : Env) where
  round-InStep :
      (s : Step) (loop : Parser → Outcome) (o : Option (Text × Text)) (p : Parser)
      → p.step ≡ s
      → ((q : Parser) → q.step ≡ s → InStep s (loop q))
      → InStep s (round env loop o p)
  round-InStep s loop none p e h = e
  round-InStep s loop (some ([], r)) p e h = e
  round-InStep s loop (some (c ∷ l, r)) p e h =
      let from = record p { pending = r } in
      bind-InStep s (take_line env (c ∷ l) from) loop
        (λ q t. h q ((rw t at (take_line-Keeps env (c ∷ l) from)).2 ∙ e))

  headers_loop-InStep :
      (s : Step) (fuel : ℕ) (p : Parser) → p.step ≡ s → InStep s (headers_loop env fuel p)
  unfolding headers_loop
  headers_loop-InStep s zero p e = tt
  headers_loop-InStep s (suc fuel) p e =
      round-InStep s (headers_loop env fuel) (next_line p.pending) p e (headers_loop-InStep s fuel)

  parse_headers-InStep : (p : Parser) → InStep p.step (parse_headers env p)
  unfolding parse_headers
  parse_headers-InStep p =
      unerased-InStep p.step p.pending (headers_loop env (suc (length p.pending)) p)
        (headers_loop-InStep p.step (suc (length p.pending)) p refl)

  pub parse_fixed_content-Ends :
      (arrived : Text) (p : Parser) → Ends (parse_fixed_content env.boost arrived p)
  unfolding parse_fixed_content finish
  parse_fixed_content-Ends arrived p = Ends-if (not p.content_length_parsed) _ _ tt (
      Ends-if (p.content_length == invalid_length) _ _ tt
        (Ends-if (is_content_full (filled arrived p)) _ _ tt tt))

  parse_content-Ends :
      (arrived : Text) (p : Parser) → p.step ≢ ended → Ends (parse_content env arrived p)
  unfolding parse_content
  parse_content-Ends arrived p n =
      Ends-if p.chunked _ _ (parse_chunked_content-Ends env.boost arrived p) (
        Ends-if (takes_parts env env.kind p) _ _
          (parse_multipart_content-Ends env.boost (multipart_fuel env arrived p) arrived p n
            (omega arith))
          (parse_fixed_content-Ends arrived p))

  content_if_ended-Ends :
      (s : Step) (o : Outcome)
      → s ≢ ended
      → Returns o
      → InStep s o
      → Ends (o >>= content_if_ended env)
  content_if_ended-Ends s (ok q) n r e =
      Ends-if q.header_ended _ _ (parse_content-Ends [] q (λ x. n (sym e ∙ x))) tt
  content_if_ended-Ends s (reject q) n r e = tt
  content_if_ended-Ends s throws n r e = tt
  content_if_ended-Ends s spent n r e = r

  -- Whatever arrives, a call of `Parse` ends, if the parser has not read a multipart request to its end
  -- before.
  pub parse-Ends : (arrived : Text) (p : Parser) → p.step ≢ ended → Ends (parse env arrived p)
  unfolding parse
  parse-Ends arrived p n =
      let q = record p { pending = p.pending ++ arrived } in
      Ends-if p.header_ended _ _ (parse_content-Ends arrived p n) (
        content_if_ended-Ends p.step (parse_headers env q) n (parse_headers-Returns env q)
          (parse_headers-InStep q))
