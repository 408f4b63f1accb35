-- ===== src/Parser/Body.antt =====
-- webcc/parser.cc: content of a known length, and content in chunks.
pub mod Fixed
pub mod Overrun
pub mod Chunks
use devops_workshop.Boost.{Boost}
use devops_workshop.Numbers.{stoul}
use devops_workshop.Http.Globals.{invalid_length, size_mod}
use devops_workshop.Parser.State.{Parser, Outcome, ok, reject, throws, spent, ◌>>=◌, finish}
use devops_workshop.Prelude.{
  ℕ, zero, suc, ◌+◌, ◌-◌, ◌%◌, ◌^◌, Bool, true, false, not, ◌&&◌, Option, none, some, [], ◌++◌, ltb,
  leb, ◌==◌, if◌then◌else◌, length, take, drop,
}
use devops_workshop.Bytes.{Text, equal, cut, next_line, strip}

-- `std::string::max_size()` of the platform's library
abbrev pub max_size : ℕ
max_size = 2 ^ 63 - 1

-- `IsContentFull`
abbrev pub is_content_full : Parser → Bool
is_content_full p =
    not (p.content_length == invalid_length) && leb p.content_length (length p.content)

-- all that waits and arrives, appended to `content_`
abbrev pub filled : Text → Parser → Parser
filled arrived p = record p { content = (p.content ++ p.pending) ++ arrived; pending = [] }

module _ (boost : Boost) where
  abbrev pub finish_if_full : Parser → Outcome
  finish_if_full p = if is_content_full p then finish boost p else ok p

  -- `ParseFixedContent`
  unfoldable pub parse_fixed_content : Text → Parser → Outcome
  parse_fixed_content arrived p =
      if not p.content_length_parsed
      then finish boost p
      else if p.content_length == invalid_length
      then reject p
      else finish_if_full (filled arrived p)

-- the number before a space, or the whole line
abbrev pub hex_str : Text → Option (Text × Text) → Text
hex_str line none = line
hex_str line (some (hex, rest)) = hex

abbrev pub take_size : Option ℕ → Parser → Outcome
take_size none p = reject p
take_size (some n) p = ok (record p { chunk_size = n })

abbrev pub take_size_line : Option (Text × Text) → Parser → Outcome
take_size_line none p = ok p
take_size_line (some (line, rest)) p =
    take_size (stoul 16 (hex_str line (cut b' ' line))) (record p { pending = rest })

-- `ParseChunkSize`: `true` also where the line is not complete
unfoldable pub parse_chunk_size : Parser → Outcome
parse_chunk_size p = take_size_line (next_line p.pending) p

-- `AppendContent(pending_data_.c_str(), chunk_size_)`, which is `std::length_error` where the result
-- would be longer than a string can be, and what follows it
unfoldable pub take_chunk : Parser → Outcome
take_chunk p =
    if ltb max_size (length p.content + p.chunk_size)
    then throws
    else ok (record p {
      content = p.content ++ take p.chunk_size p.pending;
      pending = drop ((p.chunk_size + 2) % size_mod) p.pending;
      chunk_size = invalid_length;
    })

module _ (boost : Boost) where
  -- The loop of `ParseChunkedContent` behind the reading of a chunk size; `loop` is `continue`. The
  -- sum `chunk_size_ + 2` wraps around.
  abbrev pub chunk_round : (Parser → Outcome) → Parser → Outcome
  chunk_round loop p =
      if p.chunk_size == 0
      then finish boost p
      else if leb ((p.chunk_size + 2) % size_mod) (length p.pending)
      then (take_chunk p >>= loop)
      else if ltb (length p.pending) p.chunk_size
      then ok (record p {
        content = p.content ++ p.pending;
        chunk_size = p.chunk_size - length p.pending;
        pending = [];
      })
      else ok p

  unfoldable pub chunk_loop : ℕ → Parser → Outcome
  unfolding parse_chunk_size take_chunk
  chunk_loop zero p = spent
  chunk_loop (suc fuel) p =
      (if p.chunk_size == invalid_length then parse_chunk_size p else ok p)
      >>= chunk_round (chunk_loop fuel)

  -- `ParseChunkedContent`: each round takes three bytes at least
  unfoldable pub parse_chunked_content : Text → Parser → Outcome
  unfolding chunk_loop
  parse_chunked_content arrived p =
      let q = record p { pending = p.pending ++ arrived } in chunk_loop (suc (length q.pending)) q
