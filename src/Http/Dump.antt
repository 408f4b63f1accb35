-- ===== src/Http/Dump.antt =====
-- webcc/message.cc: `Message::Dump`, which the logger takes. `split_lines` is what `split` of boost makes
-- of a text and "\n", a parameter.
pub mod Bounds
use devops_workshop.Http.Headers.{Headers}
use devops_workshop.Http.Message.{Message}
use devops_workshop.Prelude.{
  ℕ, zero, suc, ◌+◌, ◌-◌, true, false, List, [], ◌∷◌, ◌++◌, ltb, if◌then◌else◌, length, take,
}
use devops_workshop.Bytes.{Text, codes, equal}

-- `kMaxDumpSize`
abbrev pub max_dump_size : ℕ
max_dump_size = 2048

-- `append(n, ' ')`
abbrev pub spaces : ℕ → Text
spaces zero = []
spaces (suc n) = b' ' ∷ spaces n

-- what one write to the stream carries: marks of the dump itself, or bytes of the content
pub data Piece : Type 0 where
  mark : Text → Piece
  quote : Text → Piece

abbrev end_line : Text
end_line = 10 ∷ []

abbrev pub header_pieces : Text → Headers → List Piece
header_pieces indent_str [] = []
header_pieces indent_str ((name, value) ∷ hs) =
    mark (indent_str ++ (name ++ (codes ": " ++ (value ++ end_line)))) ∷ header_pieces indent_str hs

-- the loop over the lines of the content; `size` is what is written of them
unfoldable pub dump_lines : Text → List Text → ℕ → List Piece
dump_lines indent_str [] size = []
dump_lines indent_str (line ∷ lines) size =
    let rest = dump_lines indent_str lines (size + length line) in
    mark indent_str
    ∷ (if ltb max_dump_size (length line + size)
        then quote (take (max_dump_size - size) line) ∷ mark (codes "..." ++ end_line) ∷ []
        else quote line ∷ mark end_line ∷ rest)

module _ (split_lines : Text → List Text) where
  abbrev pub content_pieces : ℕ → Text → Text → List Piece
  content_pieces indent indent_str [] = []
  content_pieces zero indent_str (c ∷ s) =
      if ltb max_dump_size (length (c ∷ s))
      then quote (take max_dump_size (c ∷ s)) ∷ mark (codes "..." ++ end_line) ∷ []
      else quote (c ∷ s) ∷ mark end_line ∷ []
  content_pieces (suc n) indent_str (c ∷ s) = dump_lines indent_str (split_lines (c ∷ s)) 0

  -- `Dump` to a stream
  unfoldable pub dump_pieces : ℕ → Text → Message → List Piece
  unfolding dump_lines
  dump_pieces indent prefix m =
      let indent_str = spaces indent ++ prefix in
      mark (indent_str ++ (m.start_line ++ end_line))
      ∷ (header_pieces indent_str m.headers
          ++ mark (indent_str ++ end_line) ∷ content_pieces indent indent_str m.content)

abbrev pub joined_pieces : List Piece → Text
joined_pieces [] = []
joined_pieces (mark t ∷ ps) = t ++ joined_pieces ps
joined_pieces (quote t ∷ ps) = t ++ joined_pieces ps

-- `Dump` to a string
abbrev pub dump : (Text → List Text) → ℕ → Text → Message → Text
dump split_lines indent prefix m = joined_pieces (dump_pieces split_lines indent prefix m)

-- the bytes of the content that a dump holds
abbrev pub quoted : List Piece → Text
quoted [] = []
quoted (mark t ∷ ps) = quoted ps
quoted (quote t ∷ ps) = t ++ quoted ps
