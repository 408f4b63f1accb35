-- ===== src/Parser/Body/Chunks/Decode.antt =====
-- webcc/parser.cc: a body in chunks that has arrived as a whole is decoded.
use devops_workshop.Boost.{Boost}
use devops_workshop.Numbers.{stoul}
use devops_workshop.Http.Globals.{invalid_length}
use devops_workshop.Parser.State.{Parser}
use devops_workshop.Parser.Body.{hex_str}
use devops_workshop.Prelude.{ℕ, ◌≡◌, ◌≢◌, Option, some, List, [], ◌∷◌, ◌++◌, length}
use devops_workshop.Bytes.{Text, Lacks, cut}

-- A chunk: the line that gives its size, and its data.
pub record Chunk : Type 0 where
  pub size_line : Text
  pub body : Text

abbrev pub size_of : Text → Option ℕ
size_of line = stoul 16 (hex_str line (cut b' ' line))

-- The size line is one line, and says how long the data are; only the last chunk is empty.
pub record IsChunk (c : Chunk) : Type 0 where
  pub one_line : Lacks 13 c.size_line
  pub size_is : size_of c.size_line ≡ some (length c.body)
  pub body_ne : c.body ≢ []

-- the bytes of a body, with what follows the line of its last chunk
abbrev pub wire : List Chunk → Text → Text → Text
wire [] last rest = last ++ (13 ∷ 10 ∷ rest)
wire (c ∷ cs) last rest = c.size_line ++ (13 ∷ 10 ∷ (c.body ++ (13 ∷ 10 ∷ wire cs last rest)))

abbrev pub bodies : List Chunk → Text
bodies [] = []
bodies (c ∷ cs) = c.body ++ bodies cs

-- the state in which a chunk size is expected
abbrev pub expecting : Text → Text → Parser → Parser
expecting content pending p = record p {
  content = content;
  pending = pending;
  chunk_size = invalid_length;
}
