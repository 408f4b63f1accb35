-- ===== src/Parser/HeaderLines/Written.antt =====
-- webcc/parser.cc and request_parser.cc against message.h and request.cc: the Content-Length that
-- `SetContentLength` writes, and the start line that `CreateStartLine` builds, are read back.
use devops_workshop.Boost.{IsSolid, trim-word, iequals_refl, all_solid_sound, joined}
use devops_workshop.Numbers.{to_string, decimal_loop, stoul-to_string}
use devops_workshop.Http.Globals.{split2}
use devops_workshop.Http.Message.{set_header}
use devops_workshop.Http.Request.{Request, request_line, set_url, target_query}
use devops_workshop.Url.Address.{Url, blank, init}
use devops_workshop.Url.Address.Render.{target, parse-target}
use devops_workshop.Parser.State.{Parser, Env, ok, with_message}
use devops_workshop.Parser.HeaderLines.{take_words, take_field, parse_header_line, parse_start_line}
use devops_workshop.Prelude.{
  ℕ, zero, suc, ◌+◌, ◌/◌, ◌%◌, ◌≡◌, ◌≢◌, inl, inr, refl, ap, ◌∙◌, true, none, some, [], ◌∷◌, ◌++◌,
  arith, ltb, Bool-cases, All,
}
use devops_workshop.Bytes.{Text, codes, Lacks, cut_on, cut_lem, cut-none, lacks_sound}

decimal_loop-IsSolid :
    (fuel n : ℕ) (later : Text) → All IsSolid later → All IsSolid (decimal_loop fuel n later)
unfolding decimal_loop
decimal_loop-IsSolid zero n later h = h
decimal_loop-IsSolid (suc fuel) n later h = elim (Bool-cases (ltb n 10)) [
  | inl small ↦ rw small (digit n small, h)
  | inr large ↦
      rw large (decimal_loop-IsSolid fuel (n / 10) ((b'0' + n % 10) ∷ later) (ground arith, h))
]
  where
    digit : (m : ℕ) → ltb m 10 ≡ true → IsSolid (b'0' + m)
    digit m e = ground arith

pub to_string-IsSolid : (n : ℕ) → All IsSolid (to_string n)
unfolding to_string
to_string-IsSolid n = decimal_loop-IsSolid (suc n) n [] tt

abbrev length_name : Text
length_name = codes "Content-Length"

-- the field as `Message::Prepare` writes it, without its line break
abbrev pub field_line : Text → Text → Text
field_line name value = name ++ (codes ": " ++ value)

module _ (env : Env) where
  split2-field :
      (name value : Text)
      → All IsSolid name
      → All IsSolid value
      → Lacks b':' name
      → split2 env.boost (field_line name value) b':' ≡ some (name, value)
  unfolding split2
  split2-field name value n v l = rw (cut_lem b':' name (b' ' ∷ value) l) (λ i. some (
    trim-word env.boost name n i,
    (env.boost.trim_space b' ' value refl ∙ trim-word env.boost value v) i,
  ))

  -- The Content-Length field that `SetContentLength` writes is accepted, if memory for the content can
  -- be reserved: the length is known, and the field is kept.
  pub parse_header_line-content_length :
      (n : ℕ) (p : Parser)
      → env.can_reserve n ≡ true
      → parse_header_line env (field_line (codes "Content-Length") (to_string n)) p
        ≡ ok (
            with_message
              (set_header env.boost (codes "Content-Length") (to_string n))
              (record p { content_length_parsed = true; content_length = n }))
  unfolding parse_header_line
  parse_header_line-content_length n p h =
      ap (λ o. take_field env o p)
        (split2-field length_name (to_string n) (all_solid_sound length_name refl)
          (to_string-IsSolid n) (lacks_sound b':' length_name refl))
      ∙ rw
          (
            iequals_refl env.boost length_name,
            stoul-to_string n (omega (arith, env.reserve_limit n h)),
            h,
          )
          refl

  init-target :
      (path query : Text) (old : Url)
      → Lacks b'%' (target path query)
      → Lacks b'?' path
      → cut_on (codes "://") (target path query) ≡ none
      → init env.boost (target path query) true true old
        ≡ record blank { path = path; query = query }
  unfolding init
  init-target path query old e q n =
      rw (cut-none b'%' (target path query) e) (parse-target env.boost path query q n)

  -- A start line that `CreateStartLine` builds is read back: the method, and the path and the query
  -- of the target. The method is not empty, it and the target hold no space, the target holds no
  -- percent sign and no "://", and the path no question mark.
  pub parse_start_line-request_line :
      (r : Request) (p : Parser)
      → r.method ≢ []
      → Lacks b' ' r.method
      → Lacks b' ' (target r.url.path r.url.query)
      → Lacks b'%' (target r.url.path r.url.query)
      → Lacks b'?' r.url.path
      → cut_on (codes "://") (target r.url.path r.url.query) ≡ none
      → parse_start_line env (request_line r) p
        ≡ ok (record p {
          request = record (p.request) {
            method = r.method;
            url = record blank { path = r.url.path; query = r.url.query };
          };
        })
  unfolding parse_start_line
  parse_start_line-request_line r p ne m t e q n =
      ap (λ l. take_words env (env.boost.split_spaces l) p) (line r.url.query)
      ∙ ap (λ ws. take_words env ws p) words
      ∙ url
    where
      line :
          (query : Text)
          → r.method ++ b' ' ∷ ((b'/' ∷ (r.url.path ++ target_query query)) ++ codes " HTTP/1.1")
            ≡ joined b' ' r.method (target r.url.path query ∷ codes "HTTP/1.1" ∷ [])
      line [] = refl
      line (c ∷ s) = refl

      words :
          env.boost.split_spaces
            (joined b' ' r.method (target r.url.path r.url.query ∷ codes "HTTP/1.1" ∷ []))
          ≡ r.method ∷ target r.url.path r.url.query ∷ codes "HTTP/1.1" ∷ []
      words =
          env.boost.split_spaces_joined r.method
            (target r.url.path r.url.query ∷ codes "HTTP/1.1" ∷ [])
            ((ne, m), (((λ x. cc), t), (((λ x. cc), lacks_sound b' ' (codes "HTTP/1.1") refl), tt)))

      url :
          take_words env (r.method ∷ target r.url.path r.url.query ∷ codes "HTTP/1.1" ∷ []) p
          ≡ ok (record p {
            request = record (p.request) {
              method = r.method;
              url = record blank { path = r.url.path; query = r.url.query };
            };
          })
      url =
          unfold set_url in
          λ i. ok (record p {
            request = record (p.request) {
              method = r.method;
              url = init-target r.url.path r.url.query p.request.url e q n i;
            };
          })
