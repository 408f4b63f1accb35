-- ===== src/Http/Dump/Bounds.antt =====
-- webcc/message.cc: how much of the content a dump holds.
use devops_workshop.Http.Headers.{Headers}
use devops_workshop.Http.Message.{Message, joined_buffers}
use devops_workshop.Http.Dump.{
  max_dump_size, Piece, spaces, header_pieces, dump_lines, content_pieces, dump_pieces, quoted,
}
use devops_workshop.Prelude.{
  ℕ, zero, suc, ◌+◌, ◌-◌, ◌≤◌, ◌≡◌, inl, inr, refl, sym, ap, ◌∙◌, false, List, [], ◌∷◌, ◌++◌,
  append-nil, arith, ltb, tests, length, take, Bool-cases,
}
use devops_workshop.Bytes.{Text}

take-inside : (n : ℕ) (a b : Text) → n ≤ length a → take n (a ++ b) ≡ take n a
take-inside zero a b h = refl
take-inside (suc n) [] b h = absurd (omega arith)
take-inside (suc n) (c ∷ a) b h = ap (◌∷◌ c) (take-inside n a b (omega arith))

take-beyond : (n : ℕ) (a b : Text) → length a ≤ n → take n (a ++ b) ≡ a ++ take (n - length a) b
take-beyond n [] b h = ap (λ m. take m b) (omega arith)
take-beyond zero (c ∷ a) b h = absurd (omega arith)
take-beyond (suc n) (c ∷ a) b h =
    ap (◌∷◌ c) (take-beyond n a b (omega arith) ∙ ap (λ m. a ++ take m b) (omega arith))

quoted-header_pieces :
    (indent_str : Text) (hs : Headers) (ps : List Piece)
    → quoted (header_pieces indent_str hs ++ ps) ≡ quoted ps
quoted-header_pieces indent_str [] ps = refl
quoted-header_pieces indent_str ((name, value) ∷ hs) ps = quoted-header_pieces indent_str hs ps

take-nil : (n : ℕ) → take {A = ℕ} n [] ≡ []
take-nil zero = refl
take-nil (suc n) = refl

not_longer : (a b : ℕ) → ltb a b ≡ false → b ≤ a
not_longer a b e = ground arith

quoted-dump_lines :
    (indent_str : Text) (lines : List Text) (size : ℕ)
    → size ≤ max_dump_size
    → quoted (dump_lines indent_str lines size) ≡ take (max_dump_size - size) (joined_buffers lines)
unfolding dump_lines
quoted-dump_lines indent_str [] size h = sym (take-nil (max_dump_size - size))
quoted-dump_lines indent_str (line ∷ lines) size h =
    elim (Bool-cases (ltb max_dump_size (length line + size))) [
      | inl long ↦ rw long (
          append-nil (take (max_dump_size - size) line)
          ∙ sym (take-inside (max_dump_size - size) line (joined_buffers lines) (omega tests)))
      | inr short ↦
          let fits : length line + size ≤ max_dump_size =
            not_longer max_dump_size (length line + size) short in
          rw short (
            ap (λ t. line ++ t)
              (quoted-dump_lines indent_str lines (size + length line) (omega arith)
                ∙ ap (λ m. take m (joined_buffers lines)) (rest size (length line)))
            ∙ sym (take-beyond (max_dump_size - size) line (joined_buffers lines) (omega arith)))
    ]
  where
    rest : (a b : ℕ) → max_dump_size - (a + b) ≡ max_dump_size - a - b
    rest a b = omega arith

take-all : (n : ℕ) (s : Text) → length s ≤ n → take n s ≡ s
take-all n [] h = take-nil n
take-all zero (c ∷ s) h = absurd (omega arith)
take-all (suc n) (c ∷ s) h = ap (◌∷◌ c) (take-all n s (omega arith))

module _ (split_lines : Text → List Text) where
  -- what a dump shows of the content: all of it, or its lines behind one another
  abbrev pub shown : ℕ → Text → Text
  shown indent [] = []
  shown zero (c ∷ s) = c ∷ s
  shown (suc n) (c ∷ s) = joined_buffers (split_lines (c ∷ s))

  quoted-content_pieces :
      (indent : ℕ) (indent_str content : Text)
      → quoted (content_pieces split_lines indent indent_str content)
        ≡ take max_dump_size (shown indent content)
  quoted-content_pieces indent indent_str [] = refl
  quoted-content_pieces zero indent_str (c ∷ s) =
      elim (Bool-cases (ltb max_dump_size (length (c ∷ s)))) [
        | inl long ↦ rw long (append-nil (take max_dump_size (c ∷ s)))
        | inr short ↦ rw short (
            append-nil (c ∷ s)
            ∙ sym
                (take-all max_dump_size (c ∷ s) (not_longer max_dump_size (length (c ∷ s)) short)))
      ]
  quoted-content_pieces (suc n) indent_str (c ∷ s) =
      quoted-dump_lines indent_str (split_lines (c ∷ s)) 0 (omega arith)

  -- Of the content a dump holds the first 2048 bytes, or all there are: without an indent as it
  -- stands, and with one of the bytes of its lines, behind one another.
  pub dump_pieces-quoted :
      (indent : ℕ) (prefix : Text) (m : Message)
      → quoted (dump_pieces split_lines indent prefix m)
        ≡ take max_dump_size (shown indent m.content)
  unfolding dump_pieces
  dump_pieces-quoted indent prefix m =
      let indent_str = spaces indent ++ prefix in
      quoted-header_pieces indent_str m.headers _
      ∙ quoted-content_pieces indent indent_str m.content
