-- ===== src/Parser/HeaderLines/Frame.antt =====
-- webcc/parser.cc: reading one line leaves `pending_data_` and the end of the headers alone, and does
-- not depend on the data that waits.
use devops_workshop.Numbers.{stoul, ℤ, stoi}
use devops_workshop.Http.Globals.{split2}
use devops_workshop.Http.Content.{ContentType, content_type, valid}
use devops_workshop.Parser.State.{
  Parser, Kind, of_request, of_response, Env, Outcome, ok, reject, throws, spent, with_message,
}
use devops_workshop.Parser.HeaderLines.{
  take_words, parse_start_line, take_status, take_status_words, parse_status_line, start_line_of,
  take_length, take_type, take_header, take_field, parse_header_line, take_line,
}
use devops_workshop.Prelude.{
  ℕ, ◌≡◌, inl, inr, refl, Bool, true, false, not, Option, none, some, List, [], ◌∷◌, ◌++◌,
  if◌then◌else◌, Bool-cases,
}
use devops_workshop.Bytes.{Text, codes}

-- the parser with more data behind what waits
abbrev pub push : Text → Parser → Parser
push more p = record p { pending = p.pending ++ more }

abbrev pub shift : Text → Outcome → Outcome
shift more (ok p) = ok (push more p)
shift more (reject p) = reject (push more p)
shift more throws = throws
shift more spent = spent

-- A line is accepted or refused, and leaves these members alone.
abbrev pub Keeps : Parser → Outcome → Type 0
Keeps p (ok q) = (q.pending ≡ p.pending) × (q.header_ended ≡ p.header_ended) × (q.step ≡ p.step)
Keeps p (reject q) = Unit
Keeps p throws = ⊥
Keeps p spent = ⊥

module _ (env : Env) where
  take_words-shift :
      (more : Text) (words : List Text) (p : Parser)
      → take_words env words (push more p) ≡ shift more (take_words env words p)
  take_words-shift more [] p = refl
  take_words-shift more (a ∷ []) p = refl
  take_words-shift more (a ∷ b ∷ []) p = refl
  take_words-shift more (a ∷ b ∷ c ∷ []) p = refl
  take_words-shift more (a ∷ b ∷ c ∷ d ∷ w) p = refl

  take_words-Keeps : (words : List Text) (p : Parser) → Keeps p (take_words env words p)
  take_words-Keeps [] p = tt
  take_words-Keeps (a ∷ []) p = tt
  take_words-Keeps (a ∷ b ∷ []) p = tt
  take_words-Keeps (a ∷ b ∷ c ∷ []) p = (refl, refl, refl)
  take_words-Keeps (a ∷ b ∷ c ∷ d ∷ w) p = tt

  take_status-shift :
      (more : Text) (o : Option ℤ) (p : Parser)
      → take_status env o (push more p) ≡ shift more (take_status env o p)
  take_status-shift more none p = refl
  take_status-shift more (some n) p = refl

  take_status-Keeps : (o : Option ℤ) (p : Parser) → Keeps p (take_status env o p)
  take_status-Keeps none p = tt
  take_status-Keeps (some n) p = (refl, refl, refl)

  take_status_words-shift :
      (more : Text) (words : List Text) (p : Parser)
      → take_status_words env words (push more p) ≡ shift more (take_status_words env words p)
  take_status_words-shift more [] p = refl
  take_status_words-shift more (a ∷ []) p = refl
  take_status_words-shift more (a ∷ b ∷ []) p = refl
  take_status_words-shift more (a ∷ b ∷ c ∷ w) p = take_status-shift more (stoi b) p

  take_status_words-Keeps :
      (words : List Text) (p : Parser) → Keeps p (take_status_words env words p)
  take_status_words-Keeps [] p = tt
  take_status_words-Keeps (a ∷ []) p = tt
  take_status_words-Keeps (a ∷ b ∷ []) p = tt
  take_status_words-Keeps (a ∷ b ∷ c ∷ w) p = take_status-Keeps (stoi b) p

  start_line_of-shift :
      (more : Text) (k : Kind) (line : Text) (p : Parser)
      → start_line_of env k line (push more p) ≡ shift more (start_line_of env k line p)
  unfolding parse_start_line parse_status_line
  start_line_of-shift more of_request line p = take_words-shift more (env.boost.split_spaces line) p
  start_line_of-shift more of_response line p =
      take_status_words-shift more (env.boost.split_spaces line) p

  start_line_of-Keeps : (k : Kind) (line : Text) (p : Parser) → Keeps p (start_line_of env k line p)
  unfolding parse_start_line parse_status_line
  start_line_of-Keeps of_request line p = take_words-Keeps (env.boost.split_spaces line) p
  start_line_of-Keeps of_response line p = take_status_words-Keeps (env.boost.split_spaces line) p

  take_length-shift :
      (more : Text) (o : Option ℕ) (name value : Text) (p : Parser)
      → take_length env o name value (push more p) ≡ shift more (take_length env o name value p)
  take_length-shift more none name value p = refl
  take_length-shift more (some n) name value p = elim (Bool-cases (env.can_reserve n)) [
    | inl e ↦ rw e
    | inr e ↦ rw e
  ]

  take_length-Keeps :
      (o : Option ℕ) (name value : Text) (p q : Parser)
      → q.pending ≡ p.pending
      → q.header_ended ≡ p.header_ended
      → q.step ≡ p.step
      → Keeps p (take_length env o name value q)
  take_length-Keeps none name value p q a b c = tt
  take_length-Keeps (some n) name value p q a b c = elim (Bool-cases (env.can_reserve n)) [
    | inl e ↦ rw e (a, b, c)
    | inr e ↦ rw e tt
  ]

  take_type-shift :
      (more : Text) (c : ContentType) (name value : Text) (p : Parser)
      → take_type env c name value (push more p) ≡ shift more (take_type env c name value p)
  take_type-shift more c name value p = elim (Bool-cases (valid c)) [ inl e ↦ rw e | inr e ↦ rw e ]

  take_type-Keeps :
      (c : ContentType) (name value : Text) (p : Parser) → Keeps p (take_type env c name value p)
  take_type-Keeps c name value p = elim (Bool-cases (valid c)) [
    | inl e ↦ rw e (refl, refl, refl)
    | inr e ↦ rw e tt
  ]

  -- the same for a choice between outcomes
  shift-if :
      (more : Text) (b : Bool) (s t s' t' : Outcome)
      → s ≡ shift more s'
      → t ≡ shift more t'
      → (if b then s else t) ≡ shift more (if b then s' else t')
  shift-if more true s t s' t' e f = e
  shift-if more false s t s' t' e f = f

  Keeps-if :
      (p : Parser) (b : Bool) (s t : Outcome) → Keeps p s → Keeps p t → Keeps p (if b then s else t)
  Keeps-if p true s t e f = e
  Keeps-if p false s t e f = f

  take_header-shift :
      (more name value : Text) (p : Parser)
      → take_header env name value (push more p) ≡ shift more (take_header env name value p)
  take_header-shift more name value p =
      shift-if more (env.boost.iequals name (codes "Content-Length")) _ _ _ _
        (take_length-shift more (stoul 10 value) name value
          (record p { content_length_parsed = true }))
        (shift-if more (env.boost.iequals name (codes "Content-Type")) _ _ _ _
          (take_type-shift more (content_type env.boost value) name value p)
          (shift-if more (env.boost.iequals name (codes "Transfer-Encoding")) _ _ _ _ refl refl))

  take_header-Keeps : (name value : Text) (p : Parser) → Keeps p (take_header env name value p)
  take_header-Keeps name value p =
      Keeps-if p (env.boost.iequals name (codes "Content-Length")) _ _
        (take_length-Keeps (stoul 10 value) name value p (record p { content_length_parsed = true })
          refl refl refl)
        (Keeps-if p (env.boost.iequals name (codes "Content-Type")) _ _
          (take_type-Keeps (content_type env.boost value) name value p)
          (Keeps-if p (env.boost.iequals name (codes "Transfer-Encoding")) _ _ (refl, refl, refl)
            (refl, refl, refl)))

  take_field-shift :
      (more : Text) (o : Option (Text × Text)) (p : Parser)
      → take_field env o (push more p) ≡ shift more (take_field env o p)
  take_field-shift more none p = refl
  take_field-shift more (some (name, value)) p = take_header-shift more name value p

  take_field-Keeps : (o : Option (Text × Text)) (p : Parser) → Keeps p (take_field env o p)
  take_field-Keeps none p = tt
  take_field-Keeps (some (name, value)) p = take_header-Keeps name value p

  pub take_line-shift :
      (more line : Text) (p : Parser)
      → take_line env line (push more p) ≡ shift more (take_line env line p)
  unfolding take_line parse_header_line
  take_line-shift more line p =
      shift-if more (not p.start_line_parsed) _ _ _ _
        (start_line_of-shift more env.kind line (
          with_message (λ m. record m { start_line = line })
            (record p { start_line_parsed = true })))
        (take_field-shift more (split2 env.boost line b':') p)

  pub take_line-Keeps : (line : Text) (p : Parser) → Keeps p (take_line env line p)
  unfolding take_line parse_header_line
  take_line-Keeps line p =
      Keeps-if p (not p.start_line_parsed) _ _
        (start_line_of-Keeps env.kind line (
          with_message (λ m. record m { start_line = line })
            (record p { start_line_parsed = true })))
        (take_field-Keeps (split2 env.boost line b':') p)
