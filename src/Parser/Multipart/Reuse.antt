-- ===== src/Parser/Multipart/Reuse.antt =====
-- webcc/request_parser.cc: `Init` does not reset `step_`, so a parser that has finished one multipart
-- request meets the next one in the step `kEnded`.
use devops_workshop.Boost.{Boost}
use devops_workshop.Http.Globals.{invalid_length}
use devops_workshop.Http.Request.{Request}
use devops_workshop.Parser.State.{Parser, ended, Outcome, spent, init}
use devops_workshop.Parser.Multipart.{
  multipart_round, close_multipart, multipart_loop, parse_multipart_content,
}
use devops_workshop.Prelude.{
  ℕ, zero, suc, ◌≡◌, ◌≢◌, refl, ap, ◌∙◌, true, false, not, ◌||◌, [], ◌∷◌, ◌++◌, ◌==◌, if◌then◌else◌,
}
use devops_workshop.Bytes.{Text, equal}

equal-nil : (s : Text) → s ≢ [] → equal s [] ≡ false
unfolding equal
equal-nil [] n = absurd (n refl)
equal-nil (c ∷ s) n = refl

init-step : (request : Request) (p : Parser) → (init request p).step ≡ p.step
unfolding init
init-step request p = refl

module _ (boost : Boost) where
  loop-ended :
      (fuel : ℕ) (p : Parser)
      → p.step ≡ ended
      → p.pending ≢ []
      → multipart_loop boost fuel p ≡ spent
  unfolding multipart_loop
  loop-ended zero p e n = refl
  loop-ended (suc fuel) p e n =
      ap
        (λ b.
          if b
          then close_multipart boost p.step p
          else multipart_round boost (multipart_loop boost fuel) p.step p)
        (equal-nil p.pending n)
      ∙ ap (λ s. multipart_round boost (multipart_loop boost fuel) s p) e
      ∙ loop-ended fuel p e n

  -- If a parser has read a multipart request to its end, then `Init` for the next request leaves it
  -- there: in the step it leaves, once data waits or arrives behind headers that give a length, no
  -- number of rounds ends the loop over multipart data.
  pub multipart-after_init :
      (request : Request) (p q : Parser) (arrived : Text) (fuel : ℕ)
      → p.step ≡ ended
      → q.step ≡ (init request p).step
      → q.content_length_parsed ≡ true
      → (q.content_length == invalid_length) ≡ false
      → q.pending ++ arrived ≢ []
      → parse_multipart_content boost fuel arrived q ≡ spent
  unfolding parse_multipart_content
  multipart-after_init request p q arrived fuel e s l v n =
      (λ i.
        if not (l i) || v i
        then Outcome.reject (record q { pending = q.pending ++ arrived })
        else multipart_loop boost fuel (record q { pending = q.pending ++ arrived }))
      ∙ loop-ended fuel (record q { pending = q.pending ++ arrived }) (s ∙ init-step request p ∙ e)
          n
