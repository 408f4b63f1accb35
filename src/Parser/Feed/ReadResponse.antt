-- ===== src/Parser/Feed/ReadResponse.antt =====
-- webcc/response.cc and response_parser.cc: a response that is written is read.
use mathlib.Core.Path.{subst}
use devops_workshop.Numbers.{pos}
use devops_workshop.Http.Globals.{status_line}
use devops_workshop.Http.Message.{Message, prepare, copy_payload}
use devops_workshop.Parser.State.{Env, new_parser, of_responses}
use devops_workshop.Parser.HeaderLines.{parse_status_line, take_line}
use devops_workshop.Parser.HeaderLines.StatusLine.{reported, parse_status_line-status_line}
use devops_workshop.Parser.Feed.{parse}
use devops_workshop.Parser.Feed.WholeContent.{IsRead}
use devops_workshop.Parser.Feed.Whole.{begun, prepared-IsRead}
use devops_workshop.Url.Address.{blank}
use devops_workshop.Parser.Feed.Expected.{written, IsField, announces}
use devops_workshop.Prelude.{
  ℕ, ◌≡◌, ◌≢◌, refl, sym, ap, ◌∙◌, Bool, true, false, [], ◌∷◌, arith, length, All,
}
use devops_workshop.Bytes.{Text, Lacks, lacks, lacks_sound}

-- a line that can stand in front of the header fields
abbrev is_line : Text → Bool
is_line [] = false
is_line (c ∷ s) = lacks 13 (c ∷ s)

is_line_sound : (t : Text) → is_line t ≡ true → Lacks 13 t × (t ≢ [])
is_line_sound [] h = cc
is_line_sound (c ∷ s) h = (lacks_sound 13 (c ∷ s) h, λ e. cc)

status_line-is_line : (status : ℕ) → is_line (status_line status) ≡ true
unfolding status_line
status_line-is_line status = ground arith

module _ (env : Env) where
  -- What `Message::Prepare` writes under the start line of a response is read back in one call of
  -- `Parse`, as a message that is complete, with the status of that line, if `Status` has it, or 501, and
  -- with the content. The fields are of one line each, without a colon in the name and without spaces
  -- around name and value; a Content-Length is that of the content, and there is one if there is any
  -- content; a Content-Type is valid, no Transfer-Encoding is "chunked", and memory for the content
  -- can be reserved.
  pub parse-written :
      (status : ℕ) (m : Message)
      → m.start_line ≡ status_line status
      → All (IsField env.boost (length m.content)) m.headers
      → (announces env.boost m.headers ≡ false → m.content ≡ [])
      → env.can_reserve (length m.content) ≡ true
      → IsRead
          (pos (reported status), (blank, []))
          m.content
          (parse (of_responses env) (copy_payload (prepare m)) new_parser)
  unfolding take_line
  parse-written status m e w k r =
      prepared-IsRead (of_responses env) (pos (reported status), (blank, [])) m
        (record (begun m.start_line (written m.headers m.content)) {
          status = pos (reported status);
        })
        (subst (λ l. Lacks 13 l × (l ≢ [])) (sym e)
          (is_line_sound (status_line status) (status_line-is_line status)))
        (ap
            (λ l.
              parse_status_line (of_responses env) l
                (begun m.start_line (written m.headers m.content)))
            e
          ∙ parse_status_line-status_line (of_responses env)
              (begun m.start_line (written m.headers m.content)) status)
        (refl, (refl, refl, refl, refl, (refl, (refl, refl, refl)), λ x. cc)) refl refl w k r refl
