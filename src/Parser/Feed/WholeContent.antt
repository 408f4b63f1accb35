-- ===== src/Parser/Feed/WholeContent.antt =====
-- webcc/parser.cc: content whose length is known, or that is not there, is read.
use mathlib.Core.Path.{subst}
use devops_workshop.Http.Globals.{invalid_length}
use devops_workshop.Http.Message.{set_content}
use devops_workshop.Parser.State.{Parser, Env, Outcome, ok, reject, finish, store_content}
use devops_workshop.Parser.Body.{filled, finish_if_full, parse_fixed_content}
use devops_workshop.Parser.Body.Fixed.{fixed-open}
use devops_workshop.Parser.Feed.Expected.{Seen, seen}
use devops_workshop.Parser.Feed.Fields.{Looks, Ended, HasNoParts}
use devops_workshop.Prelude.{
  ℕ, ◌≡◌, inl, inr, refl, sym, ap, ◌∙◌, Bool, true, false, not, ◌&&◌, [], ◌∷◌, ◌++◌, append-nil,
  arith, length, leb, ◌==◌, if◌then◌else◌, Bool-cases,
}
use devops_workshop.Bytes.{Text}

-- The message is complete, with what its start line gives, and with its content, and no parts of a form
-- are read.
abbrev pub IsRead : Seen → Text → Outcome → Type 0
IsRead s content (ok q) =
    (q.finished ≡ true) × (seen q ≡ s) × (q.request.message.content ≡ content) × HasNoParts q
IsRead s content _ = ⊥

module _ (env : Env) where
  store_content-IsRead :
      (s : Seen) (c : Text) (p : Parser)
      → p.finished ≡ true
      → seen p ≡ s
      → p.request.message.content ≡ []
      → HasNoParts p
      → IsRead s c (ok (store_content env.boost c p))
  unfolding set_content
  store_content-IsRead s [] p f t e n = (f, t, e, n)
  store_content-IsRead s (x ∷ c) p f t e n = (f, t, refl, n)

  finish-IsRead :
      (s : Seen) (p : Parser)
      → seen p ≡ s
      → p.request.message.content ≡ []
      → HasNoParts p
      → IsRead s p.content (finish env.boost p)
  unfolding finish
  finish-IsRead s p t e n =
      store_content-IsRead s p.content (record p { finished = true }) refl t e n

  pub known_length : (a n : ℕ) → env.can_reserve n ≡ true → a ≡ n → (a == invalid_length) ≡ false
  known_length a n m e = ground (arith, env.reserve_limit n m)

  full_finishes :
      (p : Parser) (n : ℕ)
      → env.can_reserve n ≡ true
      → p.content_length ≡ n
      → length p.content ≡ n
      → finish_if_full env.boost p ≡ finish env.boost p
  full_finishes p n m e f =
      ap (λ b. if b then finish env.boost p else ok p)
        (full p.content_length (length p.content) n m e f)
    where
      full :
          (a b n : ℕ)
          → env.can_reserve n ≡ true
          → a ≡ n
          → b ≡ n
          → not (a == invalid_length) && leb a b ≡ true
      full a b n m e f = ground (arith, known_length a n m e)

  unknown_finishes :
      (p : Parser)
      → p.content_length_parsed ≡ false
      → parse_fixed_content env.boost [] p ≡ finish env.boost p
  unfolding parse_fixed_content
  unknown_finishes p f =
      ap
        (λ b.
          if not b
          then finish env.boost p
          else if p.content_length == invalid_length
          then reject p
          else finish_if_full env.boost (filled [] p))
        f

  pub fixed-IsRead :
      (s : Looks) (content : Text) (b : Bool) (q : Parser)
      → env.can_reserve (length content) ≡ true
      → (b ≡ false → content ≡ [])
      → Ended env (length content) s content b (ok q)
      → IsRead s.0 content (parse_fixed_content env.boost [] q)
  fixed-IsRead s content b q m k ((h, (u, c, e, t, o, l), r, g)) =
      elim (Bool-cases q.content_length_parsed) [
        | inl f ↦
            let all : (q.content ++ q.pending) ++ [] ≡ content =
              append-nil (q.content ++ q.pending) ∙ ap (λ x. x ++ q.pending) c ∙ r in
            let known : q.content_length ≡ length content = l f in
            subst (IsRead s.0 content)
              (sym (
                fixed-open env.boost [] q
                  (f, known_length q.content_length (length content) m known)
                ∙ full_finishes (filled [] q) (length content) m known (ap length all)))
              (subst (λ x. IsRead s.0 x (finish env.boost (filled [] q))) all
                (finish-IsRead s.0 (filled [] q) t e o.1))
        | inr f ↦ subst (IsRead s.0 content) (sym (unknown_finishes q f)) (
            subst (λ x. IsRead s.0 x (finish env.boost q)) (c ∙ sym (k (sym g ∙ f)))
              (finish-IsRead s.0 q t e o.1))
      ]
