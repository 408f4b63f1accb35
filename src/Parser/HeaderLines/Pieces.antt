-- ===== src/Parser/HeaderLines/Pieces.antt =====
-- webcc/parser.cc: the headers may arrive in pieces.
use mathlib.Core.Path.{subst}
use devops_workshop.Parser.State.{Parser, Env, Outcome, ok, reject, throws, spent, ◌>>=◌}
use devops_workshop.Parser.HeaderLines.{take_line, round, headers_loop}
use devops_workshop.Parser.HeaderLines.Frame.{push, shift, take_line-Keeps, take_line-shift}
use devops_workshop.Parser.HeaderLines.Progress.{rest_shrinks, headers_loop-fuel}
use devops_workshop.Prelude.{
  ℕ, zero, suc, ◌+◌, ◌<◌, ◌≡◌, refl, sym, ap, ◌∙◌, true, false, Option, none, some, [], ◌∷◌, ◌++◌,
  arith, if◌then◌else◌, length, length-append,
}
use devops_workshop.Bytes.{Text, next_line, next_line-append}

state_or : Parser → Outcome → Parser
state_or d (ok p) = p
state_or d o = d

pub ok-injective : (p q : Parser) → ok p ≡ ok q → p ≡ q
unfolding state_or
ok-injective p q e = ap (state_or p) e

module _ (env : Env) (more : Text) where
  -- What the loop does with more data behind, once it has read all complete lines of the first part.
  abbrev pub resume : ℕ → Parser → Outcome
  resume g q = if q.header_ended then ok (push more q) else headers_loop env g (push more q)

  pub resume_open :
      (k : ℕ) (q : Parser) → q.header_ended ≡ false → resume k q ≡ headers_loop env k (push more q)
  resume_open k q u = ap (λ b. if b then ok (push more q) else headers_loop env k (push more q)) u

  pub resume_ended : (k : ℕ) (q : Parser) → q.header_ended ≡ true → resume k q ≡ ok (push more q)
  resume_ended k q u = ap (λ b. if b then ok (push more q) else headers_loop env k (push more q)) u

  kept_ended :
      (line : Text) (p q : Parser) → take_line env line p ≡ ok q → q.header_ended ≡ p.header_ended
  kept_ended line p q e = (rw e at (take_line-Keeps env line p)).1

  -- The round on the longer data reads the same line.
  pushed_round :
      (g : ℕ) (p : Parser) {l s : Text}
      → next_line p.pending ≡ some (l, s)
      → headers_loop env (suc g) (push more p)
        ≡ round env (headers_loop env g) (some (l, s ++ more)) (push more p)
  unfolding headers_loop
  pushed_round g p n =
      ap (λ o. round env (headers_loop env g) o (push more p)) (next_line-append p.pending more n)

  push-round :
      (f g k : ℕ) (p q : Parser) (o : Option (Text × Text))
      → p.header_ended ≡ false
      → next_line p.pending ≡ o
      → round env (headers_loop env f) o p ≡ ok q
      → length p.pending + length more < suc g
      → length q.pending + length more < k
      → ((m : Parser)
          → m.header_ended ≡ false
          → headers_loop env f m ≡ ok q
          → length m.pending < length p.pending
          → headers_loop env g (push more m) ≡ resume k q)
      → headers_loop env (suc g) (push more p) ≡ resume k q
  push-round f g k p q none u n e h h' ih =
      let same = ok-injective p q e in
      let longer = length-append p.pending more in
      let fits = ap (λ (x : Parser). length x.pending) same in
      headers_loop-fuel env (suc g) k (push more p) (omega arith) (omega arith)
      ∙ subst (λ x. headers_loop env k (push more p) ≡ resume k x) same (sym (resume_open k p u))
  push-round f g k p q (some ([], s)) u n e h h' ih =
      pushed_round g p n
      ∙ sym (resume_ended k (record p { pending = s; header_ended = true }) refl)
      ∙ ap (resume k) (ok-injective (record p { pending = s; header_ended = true }) q e)
  push-round f g k p q (some (c ∷ l, s)) u n e h h' ih =
      pushed_round g p n
      ∙ ap (λ o. o >>= headers_loop env g)
          (take_line-shift env more (c ∷ l) (record p { pending = s }))
      ∙ push_line (c ∷ l) (take_line env (c ∷ l) (record p { pending = s })) refl e
    where
      push_line :
          (line : Text) (o : Outcome)
          → take_line env (c ∷ l) (record p { pending = s }) ≡ o
          → (o >>= headers_loop env f) ≡ ok q
          → (shift more o >>= headers_loop env g) ≡ resume k q
      push_line line (ok m) t r =
          ih m (kept_ended (c ∷ l) (record p { pending = s }) m t ∙ u) r
            (rest_shrinks env p m c l s n t)
      push_line line (reject m) t r = absurd (cc)
      push_line line throws t r = absurd (cc)
      push_line line spent t r = absurd (cc)

  pub headers_loop-push :
      (f g k : ℕ) (p q : Parser)
      → p.header_ended ≡ false
      → headers_loop env f p ≡ ok q
      → length p.pending + length more < g
      → length q.pending + length more < k
      → headers_loop env g (push more p) ≡ resume k q
  unfolding headers_loop
  headers_loop-push zero g k p q u e h h' = cc
  headers_loop-push (suc f) zero k p q u e h h' = absurd (omega arith)
  headers_loop-push (suc f) (suc g) k p q u e h h' =
      push-round f g k p q (next_line p.pending) u refl e h h'
        (λ m v d less. headers_loop-push f g k m q v d (omega arith) h')
