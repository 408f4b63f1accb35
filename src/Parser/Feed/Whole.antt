-- ===== src/Parser/Feed/Whole.antt =====
-- webcc/parser.cc and message.cc: a message that is written is read, given how its start line is.
use mathlib.Core.Path.{subst}
use devops_workshop.Http.Globals.{crlf}
use devops_workshop.Http.Headers.{Headers}
use devops_workshop.Http.Content.{no_content_type}
use devops_workshop.Http.Message.{Message, prepare, copy_payload}
use devops_workshop.Parser.State.{
  Parser, Kind, of_request, of_response, Env, Outcome, ok, reject, throws, spent, ◌>>=◌, new_parser,
  with_message,
}
use devops_workshop.Parser.HeaderLines.{take_line, round, headers_loop, unerased}
use devops_workshop.Parser.Body.{parse_fixed_content, parse_chunked_content}
use devops_workshop.Parser.Feed.{
  multipart_fuel, takes_parts, parse_content, content_if_ended, parse,
}
use devops_workshop.Parser.Feed.WholeContent.{IsRead, fixed-IsRead}
use devops_workshop.Parser.Multipart.{parse_multipart_content}
use devops_workshop.Parser.Feed.Expected.{Seen, in_parts, written, IsField, announces, declared}
use devops_workshop.Parser.Feed.Fields.{Looks, At, Ended, headers_loop-Ended, round_line}
use devops_workshop.Prelude.{
  ℕ, suc, ◌≤◌, ◌≡◌, ◌≢◌, refl, sym, ap, ◌∙◌, Bool, true, false, ◌||◌, [], ◌∷◌, ◌++◌, arith, length,
  length-append, if◌then◌else◌, All,
}
use devops_workshop.Bytes.{Text, Lacks, codes, next_line_lem}

-- a parser that has taken a start line
abbrev pub begun : Text → Text → Parser
begun line pending = record (with_message (λ m. record m { start_line = line }) new_parser) {
  start_line_parsed = true;
  pending = pending;
}

written-length : (hs : Headers) (content : Text) → length hs ≤ length (written hs content)
written-length [] content = omega arith
written-length ((name, value) ∷ hs) content = omega (
  arith,
  written-length hs content,
  length-append name (codes ": " ++ (value ++ (crlf ++ written hs content))),
  length-append value (crlf ++ written hs content),
)

takes_parts-in_parts :
    (env : Env) (k : Kind) (p : Parser)
    → takes_parts env k p ≡ in_parts k p.request.message.content_type
takes_parts-in_parts env of_request p = refl
takes_parts-in_parts env of_response p = refl

or_false : (b : Bool) → b || false ≡ false → b ≡ false
or_false true e = cc
or_false false e = refl

module _ (env : Env) where
  -- The headers are read, and then the content.
  Ended-IsRead :
      (s : Looks) (content : Text) (b : Bool) (pending : Text) (o : Outcome)
      → env.can_reserve (length content) ≡ true
      → (b ≡ false → content ≡ [])
      → in_parts env.kind s.1 ≡ false
      → Ended env (length content) s content b o
      → IsRead s.0 content (unerased pending o >>= content_if_ended env)
  unfolding parse_content
  Ended-IsRead s content b pending (ok q) m k i h =
      let (ended, (unchunked, c, d, e, parts, l), r, g) = h in
      subst (IsRead s.0 content)
        (sym (
          ap (λ c. if c then parse_content env [] q else ok q) ended
          ∙ ap
              (λ c.
                if c
                then parse_chunked_content env.boost [] q
                else if takes_parts env env.kind q
                then parse_multipart_content env.boost (multipart_fuel env [] q) [] q
                else parse_fixed_content env.boost [] q)
              unchunked
          ∙ ap
              (λ c.
                if c
                then parse_multipart_content env.boost (multipart_fuel env [] q) [] q
                else parse_fixed_content env.boost [] q)
              (takes_parts-in_parts env env.kind q ∙ ap (in_parts env.kind) parts.0 ∙ i)))
        (fixed-IsRead env s content b q m k h)
  Ended-IsRead s content b pending (reject q) m k i h = absurd h
  Ended-IsRead s content b pending throws m k i h = absurd h
  Ended-IsRead s content b pending spent m k i h = absurd h

  -- The loop over the lines of a whole message, whose start line leads to `q`.
  pub started-Ended :
      (s : Seen) (n : ℕ) (line content : Text) (hs : Headers) (q : Parser)
      → Lacks 13 line × (line ≢ [])
      → take_line env line (record new_parser { pending = written hs content }) ≡ ok q
      → At env n (s, no_content_type) q
      → q.pending ≡ written hs content
      → q.content_length_parsed ≡ false
      → All (IsField env.boost n) hs
      → env.can_reserve n ≡ true
      → Ended env n
          (s, declared env.boost no_content_type hs)
          content
          (announces env.boost hs || false)
          (headers_loop env
            (suc (length (line ++ 13 ∷ 10 ∷ written hs content)))
            (record new_parser { pending = line ++ 13 ∷ 10 ∷ written hs content }))
  unfolding headers_loop
  started-Ended s n line content hs q i t a r k w m =
      let all = line ++ 13 ∷ 10 ∷ written hs content in
      let loop = headers_loop env (length all) in
      let p = record new_parser { pending = all } in
      let known = announces env.boost hs in
      let end : Looks = (s, declared env.boost no_content_type hs) in
      subst (Ended env n end content (known || false))
        (sym (
          ap (λ o. round env loop o p) (next_line_lem line (written hs content) i.0)
          ∙ round_line env (length content) loop line (written hs content) p i.1
          ∙ ap (λ o. o >>= loop) t))
        (subst (λ b. Ended env n end content (known || b) (loop q)) k
          (headers_loop-Ended env n (s, no_content_type) content hs (length all) q
            (omega
              (arith, length-append line (13 ∷ 10 ∷ written hs content), written-length hs content))
            m w a r))

  -- What `Prepare` writes of a message is read as a whole, if its start line is read.
  pub prepared-IsRead :
      (s : Seen) (m : Message) (q : Parser)
      → Lacks 13 m.start_line × (m.start_line ≢ [])
      → take_line env m.start_line (record new_parser { pending = written m.headers m.content })
        ≡ ok q
      → At env (length m.content) (s, no_content_type) q
      → q.pending ≡ written m.headers m.content
      → q.content_length_parsed ≡ false
      → All (IsField env.boost (length m.content)) m.headers
      → (announces env.boost m.headers ≡ false → m.content ≡ [])
      → env.can_reserve (length m.content) ≡ true
      → in_parts env.kind (declared env.boost no_content_type m.headers) ≡ false
      → IsRead s m.content (parse env (copy_payload (prepare m)) new_parser)
  unfolding prepare copy_payload parse
  prepared-IsRead s m q i t a r k w z v n =
      let all = m.start_line ++ 13 ∷ 10 ∷ written m.headers m.content in
      Ended-IsRead (s, declared env.boost no_content_type m.headers) m.content
        (announces env.boost m.headers || false) all
        (headers_loop env (suc (length all)) (record new_parser { pending = all })) v
        (λ f. z (or_false _ f)) n
        (started-Ended s (length m.content) m.start_line m.content m.headers q i t a r k w v)
