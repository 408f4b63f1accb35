-- ===== src/Parser/Body/Overrun.antt =====
-- webcc/parser.cc: content that is longer than the header says.
use devops_workshop.Boost.{Boost}
use devops_workshop.Http.Message.{set_content}
use devops_workshop.Parser.State.{Parser, ok, finish, store_content}
use devops_workshop.Parser.Body.{parse_fixed_content}
use devops_workshop.Parser.Body.Fixed.{HasLength, fixed-open}
use devops_workshop.Prelude.{
  ℕ, ◌≤◌, ◌<◌, ◌≡◌, refl, ◌∙◌, true, [], ◌∷◌, ◌++◌, arith, length, le→leb,
}
use devops_workshop.Bytes.{Text}

module _ (boost : Boost) where
  -- What `Finish` hands over.
  abbrev Stored : Text → ℕ → Parser → Type 0
  Stored c n q =
      (q.finished ≡ true) × (q.request.message.content ≡ c) × (q.request.message.content_length ≡ n)

  store_content-Stored :
      (c : Text) (p : Parser)
      → 0 < length c
      → p.finished ≡ true
      → Stored c p.content_length (store_content boost c p)
  unfolding set_content
  store_content-Stored [] p z f = absurd (elim z [ ])
  store_content-Stored (x ∷ c) p z f = (f, refl, refl)

  -- A request whose length is known, and not zero, is finished once all its content has arrived, and its
  -- content is then all that has arrived, also what lies behind its length.
  pub fixed_overrun :
      (arrived : Text) (p : Parser)
      → HasLength boost p
      → 0 < p.content_length
      → p.content_length ≤ length ((p.content ++ p.pending) ++ arrived)
      → (q : Parser) × (parse_fixed_content boost arrived p ≡ ok q)
        × (q.finished ≡ true)
        × (q.request.message.content ≡ (p.content ++ p.pending) ++ arrived)
        × (q.request.message.content_length ≡ p.content_length)
  unfolding finish
  fixed_overrun arrived p h z l =
      let all = (p.content ++ p.pending) ++ arrived in
      let ready = record p { content = all; pending = []; finished = true } in
      let stored = store_content-Stored all ready (omega arith) refl in
      (
        store_content boost all ready,
        fixed-open boost arrived p h ∙ rw (h.1, le→leb p.content_length (length all) l) refl,
        stored.0,
        stored.1,
        stored.2,
      )
