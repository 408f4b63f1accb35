-- ===== src/Parser/Feed/ReadRequest.antt =====
-- webcc/request.cc and request_parser.cc: a request that is written is read.
use mathlib.Core.Path.{subst}
use devops_workshop.Numbers.{pos}
use devops_workshop.Http.Content.{no_content_type}
use devops_workshop.Http.Message.{Message, prepare, copy_payload}
use devops_workshop.Http.Request.{Request, request_line}
use devops_workshop.Url.Address.{blank}
use devops_workshop.Url.Address.Render.{target}
use devops_workshop.Parser.State.{of_requests, Env, new_parser}
use devops_workshop.Parser.HeaderLines.{parse_start_line, take_line}
use devops_workshop.Parser.HeaderLines.Written.{parse_start_line-request_line}
use devops_workshop.Parser.Feed.{parse}
use devops_workshop.Parser.Feed.Expected.{written, IsField, announces, declared}
use devops_workshop.Parser.Feed.WholeContent.{IsRead}
use devops_workshop.Parser.Feed.Whole.{begun, prepared-IsRead}
use devops_workshop.Prelude.{
  ◌≡◌, ◌≢◌, refl, sym, ap, ◌∙◌, true, false, none, [], ◌∷◌, ◌++◌, length, All,
}
use devops_workshop.Bytes.{Text, Lacks, codes, cut_on}

-- A request whose start line is read as it was written: one line without spaces in its parts, where
-- nothing is escaped, the path holds no question mark, and "://" stands nowhere in the target.
pub record IsSendable (r : Request) : Type 0 where
  pub method_ne : r.method ≢ []
  pub one_line : Lacks 13 (request_line r)
  pub method_space : Lacks b' ' r.method
  pub target_space : Lacks b' ' (target r.url.path r.url.query)
  pub target_percent : Lacks b'%' (target r.url.path r.url.query)
  pub path_mark : Lacks b'?' r.url.path
  pub target_scheme : cut_on (codes "://") (target r.url.path r.url.query) ≡ none

pub line_ne : (method rest : Text) → method ≢ [] → method ++ rest ≢ []
line_ne [] rest n = absurd (n refl)
line_ne (c ∷ s) rest n = λ e. cc

module _ (env : Env) where
  -- What `Message::Prepare` writes under the start line of a request is read back in one call of
  -- `Parse`, as a message that is complete, with the method, the path, the query and the content. The
  -- start line is one line with no spaces but between its parts, the method is not empty, nothing is
  -- escaped, the path holds no question mark and the target no "://". The fields are of one line
  -- each, without a colon in the name and without spaces around name and value; a Content-Length is
  -- that of the content, and there is one if there is any content; a Content-Type is valid, and
  -- that of the message is not multipart, no Transfer-Encoding is "chunked", and memory for the content can be reserved.
  pub parse-written_request :
      (r : Request) (m : Message)
      → m.start_line ≡ request_line r
      → IsSendable r
      → All (IsField env.boost (length m.content)) m.headers
      → (announces env.boost m.headers ≡ false → m.content ≡ [])
      → env.can_reserve (length m.content) ≡ true
      → (declared env.boost no_content_type m.headers).multipart ≡ false
      → IsRead
          (pos 200, (record blank { path = r.url.path; query = r.url.query }, r.method))
          m.content
          (parse (of_requests env) (copy_payload (prepare m)) new_parser)
  unfolding take_line
  parse-written_request r m e s w k v n =
      let p = begun m.start_line (written m.headers m.content) in
      let url = record blank { path = r.url.path; query = r.url.query } in
      prepared-IsRead (of_requests env) (pos 200, (url, r.method)) m
        (record p { request = record (p.request) { method = r.method; url = url } })
        (subst (λ l. Lacks 13 l × (l ≢ [])) (sym e) (s.one_line, line_ne r.method _ s.method_ne))
        (ap (λ l. parse_start_line (of_requests env) l p) e
          ∙ parse_start_line-request_line (of_requests env) r p s.method_ne s.method_space
              s.target_space s.target_percent s.path_mark s.target_scheme)
        (refl, (refl, refl, refl, refl, (refl, (refl, refl, refl)), λ x. cc)) refl refl w k v n
