-- ===== src/Parser/Body/Chunks/Incomplete.antt =====
-- webcc/parser.cc: a chunk size that arrives in two pieces.
use devops_workshop.Boost.{Boost}
use devops_workshop.Http.Globals.{invalid_length, size_mod}
use devops_workshop.Parser.State.{Parser, Outcome, throws, ◌>>=◌}
use devops_workshop.Parser.Body.{
  take_size_line, take_chunk, chunk_round, chunk_loop, parse_chunked_content,
}
use devops_workshop.Parser.Body.Chunks.Progress.{chunk_loop-read}
use devops_workshop.Prelude.{
  ◌+◌, ◌%◌, ◌<◌, ◌≡◌, ◌≢◌, refl, ap, ◌∙◌, Bool, true, false, none, [], ◌∷◌, ◌++◌, arith, leb, ◌==◌,
  if◌then◌else◌, length,
}
use devops_workshop.Bytes.{Text, next_line}

length-pos : (s : Text) → s ≢ [] → 0 < length s
length-pos [] n = absurd (n refl)
length-pos (c ∷ s) n = omega arith

module _ (boost : Boost) where
  chunk_round-invalid :
      (loop : Parser → Outcome) (p : Parser)
      → p.chunk_size ≡ invalid_length
      → 0 < length p.pending
      → chunk_round boost loop p ≡ throws
  unfolding take_chunk
  chunk_round-invalid loop p e n =
      round (p.chunk_size == 0) _ (leb ((p.chunk_size + 2) % size_mod) (length p.pending)) _ _
        (ground arith) (ground arith) (ground arith)
    where
      round :
          (zero_ : Bool) (a : Outcome) (fits : Bool) (b c : Outcome)
          → zero_ ≡ false
          → fits ≡ true
          → b ≡ throws
          → (if zero_ then a else if fits then b else c) ≡ throws
      round zero_ a fits b c p q r = rw (p, q) r

  -- If data waits or arrives in which no line is complete, while a chunk size is expected, then the
  -- call throws `std::length_error`.
  pub chunked-incomplete_size :
      (arrived : Text) (p : Parser)
      → p.chunk_size ≡ invalid_length
      → p.pending ++ arrived ≢ []
      → next_line (p.pending ++ arrived) ≡ none
      → parse_chunked_content boost arrived p ≡ throws
  unfolding parse_chunked_content
  chunked-incomplete_size arrived p e n l =
      let q = record p { pending = p.pending ++ arrived } in
      chunk_loop-read boost (length (p.pending ++ arrived)) q e
      ∙ ap
          (λ o.
            take_size_line o q
            >>= chunk_round boost (chunk_loop boost (length (p.pending ++ arrived))))
          l
      ∙ chunk_round-invalid (chunk_loop boost (length (p.pending ++ arrived))) q e
          (length-pos (p.pending ++ arrived) n)
