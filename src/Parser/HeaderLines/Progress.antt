-- ===== src/Parser/HeaderLines/Progress.antt =====
-- webcc/parser.cc: the loop of `ParseHeaders` ends, whatever has arrived.
use devops_workshop.Parser.State.{Parser, Env, Outcome, ok, reject, throws, spent, ◌>>=◌}
use devops_workshop.Parser.HeaderLines.{take_line, round, headers_loop, unerased, parse_headers}
use devops_workshop.Parser.HeaderLines.Frame.{Keeps, take_line-Keeps}
use devops_workshop.Prelude.{
  ℕ, zero, suc, ◌<◌, ◌≡◌, refl, ap, Option, none, some, [], ◌∷◌, arith, length,
}
use devops_workshop.Bytes.{Text, next_line, length-next_line}

pub line_shrinks :
    (s : Text) (c : ℕ) (l r : Text) → next_line s ≡ some (c ∷ l, r) → length r < length s
line_shrinks s c l r e = omega (arith, length-next_line s e)

-- Two continuations that agree where the first part succeeds give the same outcome.
pub bind_cong :
    (o : Outcome) (f g : Parser → Outcome)
    → ((p : Parser) → o ≡ ok p → f p ≡ g p)
    → (o >>= f) ≡ (o >>= g)
bind_cong (ok p) f g h = h p refl
bind_cong (reject p) f g h = refl
bind_cong throws f g h = refl
bind_cong spent f g h = refl

-- The call returned `true` or `false`.
abbrev pub Returns : Outcome → Type 0
Returns (ok p) = Unit
Returns (reject p) = Unit
Returns throws = ⊥
Returns spent = ⊥

pub bind-Returns :
    (o : Outcome) (f : Parser → Outcome)
    → Returns o
    → ((p : Parser) → o ≡ ok p → Returns (f p))
    → Returns (o >>= f)
bind-Returns (ok p) f r h = h p refl
bind-Returns (reject p) f r h = tt
bind-Returns throws f r h = r
bind-Returns spent f r h = r

Keeps-Returns : (p : Parser) (o : Outcome) → Keeps p o → Returns o
Keeps-Returns p (ok q) k = tt
Keeps-Returns p (reject q) k = tt
Keeps-Returns p throws k = k
Keeps-Returns p spent k = k

pub unerased-Returns : (s : Text) (o : Outcome) → Returns o → Returns (unerased s o)
unerased-Returns s (ok p) r = tt
unerased-Returns s (reject p) r = tt
unerased-Returns s throws r = r
unerased-Returns s spent r = r

module _ (env : Env) where
  pub kept_pending :
      (line : Text) (p q : Parser) → take_line env line p ≡ ok q → q.pending ≡ p.pending
  kept_pending line p q e = (rw e at (take_line-Keeps env line p)).0

  -- Two loops that agree on what a line leads to agree on the round that reads the line.
  round_cong :
      (f g : Parser → Outcome) (o : Option (Text × Text)) (p : Parser)
      → ((c : ℕ) (l r : Text) (q : Parser)
          → o ≡ some (c ∷ l, r)
          → take_line env (c ∷ l) (record p { pending = r }) ≡ ok q
          → f q ≡ g q)
      → round env f o p ≡ round env g o p
  round_cong f g none p h = refl
  round_cong f g (some ([], r)) p h = refl
  round_cong f g (some (c ∷ l, r)) p h =
      bind_cong (take_line env (c ∷ l) (record p { pending = r })) f g (λ q t. h c l r q refl t)

  -- What remains behind a line is shorter.
  pub rest_shrinks :
      (p q : Parser) (c : ℕ) (l r : Text)
      → next_line p.pending ≡ some (c ∷ l, r)
      → take_line env (c ∷ l) (record p { pending = r }) ≡ ok q
      → length q.pending < length p.pending
  rest_shrinks p q c l r e t =
      let same = ap length (kept_pending (c ∷ l) (record p { pending = r }) q t) in
      let less = line_shrinks p.pending c l r e in omega arith

  -- With more fuel than bytes, the amount of fuel does not matter.
  pub headers_loop-fuel :
      (f g : ℕ) (p : Parser)
      → length p.pending < f
      → length p.pending < g
      → headers_loop env f p ≡ headers_loop env g p
  unfolding headers_loop
  headers_loop-fuel zero g p h k = absurd (omega arith)
  headers_loop-fuel (suc f) zero p h k = absurd (omega arith)
  headers_loop-fuel (suc f) (suc g) p h k =
      round_cong (headers_loop env f) (headers_loop env g) (next_line p.pending) p (λ c l r q e t.
        let less = rest_shrinks p q c l r e t in
        headers_loop-fuel f g q (omega arith) (omega arith))

  round-Returns :
      (f : Parser → Outcome) (o : Option (Text × Text)) (p : Parser)
      → ((c : ℕ) (l r : Text) (q : Parser)
          → o ≡ some (c ∷ l, r)
          → take_line env (c ∷ l) (record p { pending = r }) ≡ ok q
          → Returns (f q))
      → Returns (round env f o p)
  round-Returns f none p h = tt
  round-Returns f (some ([], r)) p h = tt
  round-Returns f (some (c ∷ l, r)) p h =
      let from = record p { pending = r } in
      bind-Returns (take_line env (c ∷ l) from) f
        (Keeps-Returns from (take_line env (c ∷ l) from) (take_line-Keeps env (c ∷ l) from))
        (λ q t. h c l r q refl t)

  headers_loop-Returns :
      (f : ℕ) (p : Parser) → length p.pending < f → Returns (headers_loop env f p)
  unfolding headers_loop
  headers_loop-Returns zero p h = absurd (omega arith)
  headers_loop-Returns (suc f) p h =
      round-Returns (headers_loop env f) (next_line p.pending) p (λ c l r q e t.
        let less = rest_shrinks p q c l r e t in headers_loop-Returns f q (omega arith))

  -- On any data, `ParseHeaders` comes to an end, and returns without an exception.
  pub parse_headers-Returns : (p : Parser) → Returns (parse_headers env p)
  unfolding parse_headers
  parse_headers-Returns p =
      unerased-Returns p.pending (headers_loop env (suc (length p.pending)) p)
        (headers_loop-Returns (suc (length p.pending)) p (omega arith))
