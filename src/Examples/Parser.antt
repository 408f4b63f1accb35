-- ===== src/Examples/Parser.antt =====
-- webcc/parser.cc and request_parser.cc on concrete data.
use devops_workshop.Prelude.{ℕ, ◌^◌, ◌<◌, ◌≡◌, refl, List, [], ◌∷◌, ◌++◌, true, false, ltb, arith}
use devops_workshop.Bytes.{Text, codes, equal, next_line}
use devops_workshop.Http.Globals.{crlf, invalid_length}
use devops_workshop.Http.Request.{blank_request, set_url}
use devops_workshop.Parser.State.{
  Parser, of_request, Env, Outcome, ok, throws, spent, new_parser, init, reset, ended,
}
use devops_workshop.Parser.HeaderLines.{parse_headers, headers_loop, take_line, parse_start_line}
use devops_workshop.Parser.HeaderLines.Frame.{push}
use devops_workshop.Parser.HeaderLines.Progress.{Returns, parse_headers-Returns}
use devops_workshop.Parser.Body.{parse_chunked_content}
use devops_workshop.Parser.Body.Chunks.Decode.{Chunk}
use devops_workshop.Parser.Body.Chunks.Progress.{Ends}
use devops_workshop.Parser.Body.Chunks.Incomplete.{chunked-incomplete_size}
use devops_workshop.Parser.Multipart.{parse_multipart_content, get_next_boundary_line, boundary_at}
use devops_workshop.Parser.Multipart.Reuse.{multipart-after_init}
use devops_workshop.Parser.Multipart.Boundary.{inner_line, found_at, get_next_boundary_line-inner}
use devops_workshop.Parser.Feed.{parse}
use devops_workshop.Parser.Feed.Ends.{parse-Ends}
use devops_workshop.Parser.Feed.Pieces.{IsPlain, settled, parse-append}
use devops_workshop.Examples.AsciiBoost.{ascii_boost, split_compress}
use devops_workshop.Bytes.{lacks_sound}

pub below : (n : ℕ) → ltb n (2 ^ 32) ≡ true → n < invalid_length
below n h = ground arith

-- 4 GB can be reserved.
abbrev pub small_env : Env
small_env = record {
  boost = ascii_boost;
  kind = of_request;
  can_reserve = λ n. ltb n (2 ^ 32);
  reserve_limit = below;
}

abbrev first_piece : Text
first_piece = codes "GET /images HTTP/1.1" ++ 13 ∷ 10 ∷ codes "Hos"

abbrev second_piece : Text
second_piece = codes "t: localhost" ++ 13 ∷ 10 ∷ 13 ∷ 10 ∷ []

abbrev pub state_of : Outcome → Parser
state_of (ok p) = p
state_of o = new_parser

abbrev half_read : Parser
half_read = state_of (parse_headers small_env (push first_piece new_parser))

reads : parse_headers small_env (push first_piece new_parser) ≡ ok half_read
unfolding parse_headers headers_loop next_line take_line parse_start_line split_compress equal
reads = refl

reads_on : parse small_env first_piece new_parser ≡ ok half_read
unfolding parse parse_headers headers_loop next_line take_line parse_start_line split_compress equal
reads_on = refl

half_read-IsPlain : IsPlain half_read
unfolding parse_headers headers_loop next_line take_line parse_start_line split_compress equal
    set_url
half_read-IsPlain = record { no_chunks = refl; no_parts = refl }

unfinished : half_read.finished ≡ false
unfolding parse_headers headers_loop next_line take_line parse_start_line split_compress equal
unfinished = refl

parse-append_example :
    settled (parse small_env (first_piece ++ second_piece) new_parser)
    ≡ settled (parse small_env second_piece half_read)
parse-append_example =
    parse-append small_env first_piece second_piece new_parser half_read half_read refl reads
      half_read-IsPlain reads_on unfinished

parse_headers-Returns_example : Returns (parse_headers small_env (push first_piece new_parser))
parse_headers-Returns_example = parse_headers-Returns small_env (push first_piece new_parser)

abbrev two_chunks : List Chunk
two_chunks =
    record { size_line = codes "3"; body = codes "abc" }
    ∷ record { size_line = codes "2 x"; body = codes "de" }
    ∷ []

chunked-incomplete_size_example : parse_chunked_content ascii_boost (codes "3") new_parser ≡ throws
unfolding next_line
chunked-incomplete_size_example =
    chunked-incomplete_size ascii_boost (codes "3") new_parser refl (λ e. cc) refl

abbrev at_the_end : Parser
at_the_end = record new_parser { step = ended }

abbrev reused : Parser
reused = record at_the_end {
  content_length_parsed = true;
  content_length = 4;
  pending = codes "data";
}

multipart-after_init_example : parse_multipart_content ascii_boost 9 [] reused ≡ spent
unfolding init reset
multipart-after_init_example =
    multipart-after_init ascii_boost blank_request at_the_end reused [] 9 refl refl refl refl
      (λ e. cc)

get_next_boundary_line-inner_example :
    get_next_boundary_line
      (codes "B")
      (codes "--X--" ++ (13 ∷ 10 ∷ (inner_line (codes "B") ++ (13 ∷ 10 ∷ codes "rest"))))
    ≡ boundary_at (found_at (codes "--X--" ++ crlf) (codes "rest") true)
get_next_boundary_line-inner_example =
    get_next_boundary_line-inner (codes "B") (codes "X") (codes "rest")
      (lacks_sound 13 (codes "X") refl) (lacks_sound 13 (codes "B") refl)
      (lacks_sound 0 (codes "B") refl) refl (λ e. cc)

parse-Ends_example : Ends (parse small_env first_piece new_parser)
parse-Ends_example = parse-Ends small_env first_piece new_parser (λ e. cc)
