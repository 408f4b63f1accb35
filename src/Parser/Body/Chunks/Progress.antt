-- ===== src/Parser/Body/Chunks/Progress.antt =====
-- webcc/parser.cc: the loop of `ParseChunkedContent` ends.
use devops_workshop.Boost.{Boost}
use devops_workshop.Http.Globals.{invalid_length, size_mod}
use devops_workshop.Parser.State.{Parser, Outcome, ok, reject, throws, spent, ◌>>=◌, finish}
use devops_workshop.Parser.HeaderLines.Pieces.{ok-injective}
use devops_workshop.Parser.Body.{
  max_size, take_size, take_size_line, hex_str, parse_chunk_size, take_chunk, chunk_round,
  chunk_loop, parse_chunked_content,
}
use devops_workshop.Numbers.{stoul}
use devops_workshop.Prelude.{
  ℕ, zero, suc, ◌+◌, ◌-◌, ◌%◌, ◌^◌, ◌≤◌, ◌<◌, ◌≡◌, ◌≢◌, inl, inr, refl, sym, ap, Bool, true, false,
  Option, none, some, [], ◌++◌, arith, ltb, leb, ◌==◌, if◌then◌else◌, Bool-cases, length,
  length-drop, ==_iff,
}
use devops_workshop.Bytes.{Text, cut, next_line, length-next_line}

-- The call came to an end: it returned or threw.
abbrev pub Ends : Outcome → Type 0
Ends spent = ⊥
Ends _ = Unit

take_size-le : (o : Option ℕ) (p q : Parser) → take_size o p ≡ ok q → q.pending ≡ p.pending
take_size-le none p q e = absurd (cc)
take_size-le (some n) p q e =
    sym (ap (λ (x : Parser). x.pending) (ok-injective (record p { chunk_size = n }) q e))

take_size-Ends : (o : Option ℕ) (p : Parser) → Ends (take_size o p)
take_size-Ends none p = tt
take_size-Ends (some n) p = tt

-- Reading a chunk size does not lengthen what waits.
parse_chunk_size-le :
    (p q : Parser) → parse_chunk_size p ≡ ok q → length q.pending ≤ length p.pending
unfolding parse_chunk_size
parse_chunk_size-le p q e = go (next_line p.pending) refl e
  where
    go :
        (o : Option (Text × Text))
        → next_line p.pending ≡ o
        → take_size_line o p ≡ ok q
        → length q.pending ≤ length p.pending
    go none n r = omega (arith, ap (λ (x : Parser). length x.pending) (ok-injective p q r))
    go (some (l, s)) n r =
        let same =
          ap length
            (take_size-le (stoul 16 (hex_str l (cut b' ' l))) (record p { pending = s }) q r) in
        omega (arith, length-next_line p.pending n)

parse_chunk_size-Ends : (p : Parser) → Ends (parse_chunk_size p)
unfolding parse_chunk_size
parse_chunk_size-Ends p = go (next_line p.pending)
  where
    go : (o : Option (Text × Text)) → Ends (take_size_line o p)
    go none = tt
    go (some (l, s)) = take_size-Ends (stoul 16 (hex_str l (cut b' ' l))) (record p { pending = s })

-- A chunk that is taken shortens what waits by three bytes at least.
take_chunk-lt :
    (p q : Parser)
    → take_chunk p ≡ ok q
    → p.chunk_size ≢ 0
    → (p.chunk_size + 2) % size_mod ≤ length p.pending
    → length q.pending < length p.pending
unfolding take_chunk
take_chunk-lt p q e n f = elim (Bool-cases (ltb max_size (length p.content + p.chunk_size))) [
  | inl long ↦ cc (rw long at e)
  | inr fits ↦
      let same = ap (λ (x : Parser). length x.pending) (ok-injective _ q (rw fits at e)) in
      let shorter = length-drop ((p.chunk_size + 2) % size_mod) p.pending in
      let small = bounded (length p.content) p.chunk_size fits in omega arith
]
  where
    bounded : (a b : ℕ) → ltb max_size (a + b) ≡ false → b < 2 ^ 63
    bounded a b h = ground arith

take_chunk-Ends : (p : Parser) → Ends (take_chunk p)
unfolding take_chunk
take_chunk-Ends p = elim (Bool-cases (ltb max_size (length p.content + p.chunk_size))) [
  | inl long ↦ rw long tt
  | inr fits ↦ rw fits tt
]

bind-Ends :
    (o : Outcome) (f : Parser → Outcome)
    → Ends o
    → ((p : Parser) → o ≡ ok p → Ends (f p))
    → Ends (o >>= f)
bind-Ends (ok p) f r h = h p refl
bind-Ends (reject p) f r h = tt
bind-Ends throws f r h = tt
bind-Ends spent f r h = r

module _ (boost : Boost) where
  -- The loop where a chunk size is expected, and where one is there.
  pub chunk_loop-read :
      (f : ℕ) (p : Parser)
      → p.chunk_size ≡ invalid_length
      → chunk_loop boost (suc f) p ≡ (parse_chunk_size p >>= chunk_round boost (chunk_loop boost f))
  unfolding chunk_loop
  chunk_loop-read f p e =
      ap (λ b. (if b then parse_chunk_size p else ok p) >>= chunk_round boost (chunk_loop boost f))
        ((==_iff p.chunk_size invalid_length).1 e)

  chunk_round-Ends :
      (f : Parser → Outcome) (p : Parser)
      → ((q : Parser)
          → take_chunk p ≡ ok q
          → p.chunk_size ≢ 0
          → (p.chunk_size + 2) % size_mod ≤ length p.pending
          → Ends (f q))
      → Ends (chunk_round boost f p)
  unfolding finish
  chunk_round-Ends f p h =
      go (p.chunk_size == 0) refl (leb ((p.chunk_size + 2) % size_mod) (length p.pending)) refl
    where
      go :
          (z : Bool)
          → (p.chunk_size == 0) ≡ z
          → (l : Bool) → leb ((p.chunk_size + 2) % size_mod) (length p.pending) ≡ l
          → Ends (
              if z
              then finish boost p
              else if l
              then (take_chunk p >>= f)
              else if ltb (length p.pending) p.chunk_size
              then ok (record p {
                content = p.content ++ p.pending;
                chunk_size = p.chunk_size - length p.pending;
                pending = [];
              })
              else ok p)
      go true e l e' = tt
      go false e true e' =
          bind-Ends (take_chunk p) f (take_chunk-Ends p)
            (λ q t. h q t (ground arith) (ground arith))
      go false e false e' = elim (Bool-cases (ltb (length p.pending) p.chunk_size)) [
        | inl more ↦ rw more tt
        | inr done ↦ rw done tt
      ]

  chunk_loop-Ends : (f : ℕ) (p : Parser) → length p.pending < f → Ends (chunk_loop boost f p)
  unfolding chunk_loop
  chunk_loop-Ends zero p h = absurd (omega arith)
  chunk_loop-Ends (suc f) p h = elim (Bool-cases (p.chunk_size == invalid_length)) [
    | inl read ↦ rw read (
        bind-Ends (parse_chunk_size p) (chunk_round boost (chunk_loop boost f))
          (parse_chunk_size-Ends p)
          (λ q s. chunk_round-Ends (chunk_loop boost f) q (λ r t n k.
            let less = take_chunk-lt q r t n k in
            let below = parse_chunk_size-le p q s in chunk_loop-Ends f r (omega arith))))
    | inr known ↦ rw known (
        chunk_round-Ends (chunk_loop boost f) p
          (λ r t n k. let less = take_chunk-lt p r t n k in chunk_loop-Ends f r (omega arith)))
  ]

  -- Whatever arrives, a call of `ParseChunkedContent` ends.
  pub parse_chunked_content-Ends :
      (arrived : Text) (p : Parser) → Ends (parse_chunked_content boost arrived p)
  unfolding parse_chunked_content
  parse_chunked_content-Ends arrived p =
      chunk_loop-Ends (suc (length (p.pending ++ arrived)))
        (record p { pending = p.pending ++ arrived }) (omega arith)
