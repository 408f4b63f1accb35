-- ===== src/Parser/Feed/Fields.antt =====
-- webcc/parser.cc and message.cc: the header fields that `Message::Prepare` writes are read.
use mathlib.Core.Path.{subst}
use devops_workshop.Boost.{iequals_left}
use devops_workshop.Numbers.{stoul-to_string}
use devops_workshop.Http.Globals.{split2}
use devops_workshop.Http.Content.{ContentType, content_type}
use devops_workshop.Http.Headers.{Header, Headers}
use devops_workshop.Parser.State.{
  with_message, Parser, start, Env, Outcome, ok, reject, throws, spent, ◌>>=◌,
}
use devops_workshop.Parser.HeaderLines.{
  take_header, take_field, parse_header_line, take_line, round, headers_loop,
}
use devops_workshop.Parser.HeaderLines.Written.{field_line}
use devops_workshop.Prelude.{
  ℕ, zero, suc, ◌<◌, ◌≡◌, ◌≢◌, inl, inr, refl, sym, ap, ◌∙◌, Bool, true, false, not, ◌||◌, none,
  some, [], ◌∷◌, ◌++◌, append_assoc, append-nil, arith, length, if◌then◌else◌, All, All-append,
  Bool-cases,
}
use devops_workshop.Bytes.{Text, Lacks, codes, equal, next_line, next_line_lem, cut_lem}
use devops_workshop.Parser.Feed.Expected.{written, Seen, seen, IsField, announces, declared}

abbrev length_name : Text
length_name = codes "Content-Length"

abbrev type_name : Text
type_name = codes "Content-Type"

-- what the start line gave, and the content type so far
abbrev pub Looks : Type 0
Looks = Seen × ContentType

or_shift : (x y z : Bool) → y || (x || z) ≡ (x || y) || z
or_shift true true z = refl
or_shift true false z = refl
or_shift false y z = refl

-- no part of a form is read yet
abbrev pub HasNoParts : Parser → Type 0
HasNoParts p = (p.step ≡ start) × (p.part ≡ none) × (p.request.form_parts ≡ [])

module _ (env : Env) (n : ℕ) where
  open env.boost use {iequals}

  -- what the parser has read, but for the end of the headers
  abbrev pub Read : Looks → Parser → Type 0
  Read s p =
      (p.chunked ≡ false)
      × (p.content ≡ [])
      × (p.request.message.content ≡ [])
      × (seen p ≡ s.0)
      × ((p.request.message.content_type ≡ s.1) × HasNoParts p)
      × (p.content_length_parsed ≡ true → p.content_length ≡ n)

  abbrev pub At : Looks → Parser → Type 0
  At s p = (p.start_line_parsed ≡ true) × Read s p

  -- A line is accepted; `b` is whether the length is known.
  abbrev Accepts : Looks → Text → Bool → Outcome → Type 0
  Accepts s rest b (ok q) = At s q × (q.pending ≡ rest) × (q.content_length_parsed ≡ b)
  Accepts s rest b _ = ⊥

  -- The headers are read up to their end, and the content waits.
  abbrev pub Ended : Looks → Text → Bool → Outcome → Type 0
  Ended s rest b (ok q) =
      (q.header_ended ≡ true) × Read s q × (q.pending ≡ rest) × (q.content_length_parsed ≡ b)
  Ended s rest b _ = ⊥

  Accepts-if :
      (s : Looks) (rest : Text) (c b : Bool) (o u : Outcome)
      → (b ≡ true → Accepts s rest c o)
      → (b ≡ false → Accepts s rest c u)
      → Accepts s rest c (if b then o else u)
  Accepts-if s rest c true o u f g = f refl
  Accepts-if s rest c false o u f g = g refl

  bind-Ended :
      (s t : Looks) (rest later : Text) (b c : Bool) (o : Outcome) (loop : Parser → Outcome)
      → Accepts s rest b o
      → ((q : Parser)
          → At s q
          → q.pending ≡ rest
          → q.content_length_parsed ≡ b
          → Ended t later c (loop q))
      → Ended t later c (o >>= loop)
  bind-Ended s t rest later b c (ok q) loop (a, p, l) f = f q a p l
  bind-Ended s t rest later b c (reject q) loop a f = absurd a
  bind-Ended s t rest later b c throws loop a f = absurd a
  bind-Ended s t rest later b c spent loop a f = absurd a

  split2-trimmed :
      (f : Header)
      → IsField env.boost n f
      → split2 env.boost (field_line f.0 f.1) b':' ≡ some (f.0, f.1)
  unfolding split2
  split2-trimmed (name, value) w =
      rw (cut_lem b':' name (b' ' ∷ value) w.name_colon)
        (λ i. some (w.name_trimmed i, (env.boost.trim_space b' ' value refl ∙ w.value_trimmed) i))

  length_no_type : (name : Text) → iequals name length_name ≡ true → iequals name type_name ≡ false
  unfolding equal
  length_no_type name e =
      iequals_left env.boost name length_name type_name e
      ∙ env.boost.iequals_fold length_name type_name

  -- what a field makes of the content type
  abbrev pub next_type : Looks → Header → Looks
  next_type s f = (s.0, if iequals f.0 type_name then content_type env.boost f.1 else s.1)

  take_header-Accepts :
      (s : Looks) (f : Header) (p : Parser)
      → env.can_reserve n ≡ true
      → IsField env.boost n f
      → At s p
      → Accepts
          (next_type s f)
          p.pending
          (iequals f.0 (codes "Content-Length") || p.content_length_parsed)
          (take_header env f.0 f.1 p)
  take_header-Accepts s (name, value) p m w h = elim (Bool-cases (iequals name length_name)) [
    | inl e ↦
        rw (e, length_no_type name e)
          (rw (w.length_is e)
            (rw (stoul-to_string n (omega (arith, env.reserve_limit n m))) (rw m (kept_length h))))
    | inr e ↦ rw e (elim (Bool-cases (iequals name type_name)) [
      | inl t ↦ rw t (rw (w.type_is t) (typed h, refl, refl))
      | inr t ↦ rw t (
          Accepts-if s p.pending p.content_length_parsed (iequals name (codes "Transfer-Encoding"))
            _ _ (λ t. (unchunked t, refl, refl)) (λ _. (h, refl, refl)))
    ])
  ]
    where
      kept_length :
          At s p
          → At s (record p { content_length_parsed = true; content_length = n })
            × (p.pending ≡ p.pending)
            × (true ≡ true)
      kept_length (a, (b, c, d, e, g, f)) = ((a, (b, c, d, e, g, λ _. refl)), refl, refl)

      typed :
          At s p
          → At
              (s.0, content_type env.boost value)
              (with_message (λ m. record m { content_type = content_type env.boost value }) p)
      typed (a, (b, c, d, e, g, f)) = (a, (b, c, d, e, (refl, g.1), f))

      unchunked :
          iequals name (codes "Transfer-Encoding") ≡ true
          → At s (record p { chunked = p.chunked || equal value (codes "chunked") })
      unchunked t =
          let (a, (b, c, d, e, g, f)) = h in (a, (rw (b, w.coding_is t) refl, c, d, e, g, f))

  take_line-Accepts :
      (s : Looks) (f : Header) (p : Parser)
      → env.can_reserve n ≡ true
      → IsField env.boost n f
      → At s p
      → Accepts
          (next_type s f)
          p.pending
          (iequals f.0 (codes "Content-Length") || p.content_length_parsed)
          (take_line env (field_line f.0 f.1) p)
  unfolding take_line parse_header_line
  take_line-Accepts s f p m w h =
      Accepts-if (next_type s f) p.pending _ (not p.start_line_parsed) _ _ (λ e. cc (h.0, e))
        (λ _.
          subst
            (λ o.
              Accepts (next_type s f) p.pending
                (iequals f.0 (codes "Content-Length") || p.content_length_parsed)
                (take_field env o p))
            (sym (split2-trimmed f w)) (take_header-Accepts s f p m w h))

  pub round_line :
      (loop : Parser → Outcome) (line rest : Text) (p : Parser)
      → line ≢ []
      → round env loop (some (line, rest)) p
        ≡ (take_line env line (record p { pending = rest }) >>= loop)
  round_line loop [] rest p e = absurd (e refl)
  round_line loop (c ∷ line) rest p e = refl

  field_ne : (f : Header) → field_line f.0 f.1 ≢ []
  field_ne ([], value) = λ e. cc
  field_ne (c ∷ name, value) = λ e. cc

  field-Lacks : (f : Header) → IsField env.boost n f → Lacks 13 (field_line f.0 f.1)
  field-Lacks (name, value) w =
      All-append (λ x. x ≢ 13) name (codes ": " ++ value) w.name_line
        ((λ x. cc), ((λ x. cc), w.value_line))

  written_field :
      (f : Header) (hs : Headers) (content : Text)
      → written (f ∷ hs) content ≡ field_line f.0 f.1 ++ 13 ∷ 10 ∷ written hs content
  written_field (name, value) hs content =
      sym (append_assoc name (codes ": " ++ value) (13 ∷ 10 ∷ written hs content))

  written_end : (content : Text) → written [] content ≡ 13 ∷ 10 ∷ content
  written_end [] = refl
  written_end (c ∷ s) = ap (λ t. 13 ∷ 10 ∷ t) (append-nil (c ∷ s))

  -- The loop reads the fields, if it has fuel for each of them and for the empty line.
  pub headers_loop-Ended :
      (s : Looks) (content : Text) (hs : Headers) (fuel : ℕ) (p : Parser)
      → length hs < fuel
      → env.can_reserve n ≡ true
      → All (IsField env.boost n) hs
      → At s p
      → p.pending ≡ written hs content
      → Ended
          (s.0, declared env.boost s.1 hs)
          content
          (announces env.boost hs || p.content_length_parsed)
          (headers_loop env fuel p)
  unfolding headers_loop
  headers_loop-Ended s content hs zero p l m w h e = absurd (omega arith)
  headers_loop-Ended s content [] (suc fuel) p l m w h e =
      subst (λ o. Ended s content p.content_length_parsed (round env (headers_loop env fuel) o p))
        (sym (ap next_line (e ∙ written_end content) ∙ next_line_lem [] content tt))
        (refl, h.1, refl, refl)
  headers_loop-Ended s content (f ∷ hs) (suc fuel) p l m w h e =
      let line = field_line f.0 f.1 in
      let rest = written hs content in
      let end : Looks = (s.0, declared env.boost s.1 (f ∷ hs)) in
      let loop = headers_loop env fuel in
      let known = announces env.boost (f ∷ hs) || p.content_length_parsed in
      subst (λ o. Ended end content known (round env loop o p))
        (sym (
          ap next_line (e ∙ written_field f hs content)
          ∙ next_line_lem line rest (field-Lacks f w.0)))
        (subst (Ended end content known) (sym (round_line loop line rest p (field_ne f))) (
          bind-Ended (next_type s f) end rest content _ known
            (take_line env line (record p { pending = rest })) loop
            (take_line-Accepts s f (record p { pending = rest }) m w.0 h)
            (λ q a r k.
              subst (λ b. Ended end content b (loop q))
                (ap (λ b. announces env.boost hs || b) k
                  ∙ or_shift (iequals f.0 length_name) (announces env.boost hs)
                      p.content_length_parsed)
                (headers_loop-Ended (next_type s f) content hs fuel q (omega arith) m w.1 a r))))
