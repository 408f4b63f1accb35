-- ===== src/Parser/Multipart.antt =====
-- webcc/request_parser.cc: multipart form data.
pub mod Boundary
pub mod Lines
pub mod PartWire
pub mod Parts
pub mod PartRounds
pub mod Form
pub mod Termination
pub mod Reuse
use devops_workshop.Boost.{Boost}
use devops_workshop.Http.Globals.{invalid_length, crlf, split2}
use devops_workshop.Http.Content.{ContentDisposition, content_disposition}
use devops_workshop.Http.Form.{FormPart, blank_part, append_data}
use devops_workshop.Http.Request.{add_form_part}
use devops_workshop.Parser.State.{
  Parser, Step, start, boundary_parsed, headers_parsed, ended, Outcome, ok, reject, spent, finish,
}
use devops_workshop.Prelude.{
  ℕ, zero, suc, ◌+◌, ◌-◌, Bool, true, false, not, ◌&&◌, ◌||◌, Option, none, some, [], ◌∷◌, ◌++◌,
  ltb, ◌==◌, if◌then◌else◌, length, take, drop,
}
use devops_workshop.Bytes.{Text, codes, equal, cut, next_line, strip}

-- `strncmp(a, b, n) == 0` for `n` the length of `a`: a null character ends the comparison
unfoldable pub same_prefix : Text → Text → Bool
same_prefix [] b = true
same_prefix (x ∷ a) [] = false
same_prefix (x ∷ a) (y ∷ b) = x == y && (x == 0 || same_prefix a b)

abbrev pub starts_dashed : Text → Bool
starts_dashed (x ∷ y ∷ s) = x == b'-' && y == b'-'
starts_dashed s = false

abbrev pub ends_dashed : Text → Bool
ends_dashed line = equal (drop (length line - 2) line) (codes "--")

-- Whether a line has the form of a closing boundary: then `*end` is set, before the boundary itself
-- is compared.
unfoldable pub sets_end : Text → Text → Bool
unfolding equal
sets_end boundary line =
    length line == length boundary + 4 && starts_dashed line && ends_dashed line

-- `IsBoundary`, its result
unfoldable pub is_boundary : Text → Text → Bool
unfolding sets_end same_prefix
is_boundary boundary line =
    if not (length line == length boundary + 2) && not (length line == length boundary + 4)
    then false
    else if not (starts_dashed line)
    then false
    else if length line == length boundary + 4 && not (ends_dashed line)
    then false
    else same_prefix boundary (drop 2 line)

-- what `GetNextBoundaryLine` finds: the text before the boundary, the data behind its line, and
-- the flag
pub record Found : Type 0 where
  pub before : Text
  pub behind : Text
  pub closing : Bool

-- The result of `GetNextBoundaryLine`: a boundary line, none in the data so far, or a number of
-- rounds that was too small
pub data Search : Type 0 where
  boundary_at : Found → Search
  not_yet : Search
  search_spent : Search

-- The loop of `GetNextBoundaryLine`; `before` is `pending_data_` up to the current offset. The flag
-- is kept from line to line.
abbrev pub scan_round :
    (Text → Text → Bool → Search) → Text → Option (Text × Text) → Text → Bool → Search
scan_round loop boundary none before closing = not_yet
scan_round loop boundary (some ([], rest)) before closing = loop (before ++ crlf) rest closing
scan_round loop boundary (some (c ∷ line, rest)) before closing =
    let closing' = closing || sets_end boundary (c ∷ line) in
    if is_boundary boundary (c ∷ line)
    then boundary_at (record { before = before; behind = rest; closing = closing' })
    else loop (before ++ ((c ∷ line) ++ crlf)) rest closing'

unfoldable pub scan : ℕ → Text → Text → Text → Bool → Search
scan zero boundary before rest closing = search_spent
scan (suc fuel) boundary before rest closing =
    scan_round (λ b r c. scan fuel boundary b r c) boundary (next_line rest) before closing

-- `GetNextBoundaryLine`: each line takes two bytes at least
unfoldable pub get_next_boundary_line : Text → Text → Search
unfolding scan sets_end is_boundary
get_next_boundary_line boundary pending = scan (suc (length pending)) boundary [] pending false

-- `ParsePartHeaders`: parsed, refused, in need of more data, or a number of rounds that was too small
pub data PartHeaders : Type 0 where
  parsed : FormPart → Text → PartHeaders
  refused : FormPart → PartHeaders
  need_more : FormPart → PartHeaders
  headers_spent : PartHeaders

module _ (boost : Boost) where
  abbrev pub take_disposition : ContentDisposition → FormPart → Option FormPart
  take_disposition d part =
      if d.valid then some (record part { name = d.name; file_name = d.file_name }) else none

  -- one field of a part: only its Content-Disposition is read; `none` for an error
  abbrev pub take_part_field : Option (Text × Text) → FormPart → Option FormPart
  take_part_field none part = none
  take_part_field (some (name, value)) part =
      if boost.iequals name (codes "Content-Disposition")
      then take_disposition (content_disposition boost value) part
      else some part

  abbrev pub part_next :
      (Text → FormPart → PartHeaders) → Text → FormPart → Option FormPart → PartHeaders
  part_next loop rest part none = refused part
  part_next loop rest part (some part') = loop rest part'

  abbrev pub part_round :
      (Text → FormPart → PartHeaders) → Option (Text × Text) → FormPart → PartHeaders
  part_round loop none part = need_more part
  part_round loop (some ([], rest)) part = parsed part rest
  part_round loop (some (c ∷ line, rest)) part =
      part_next loop rest part (take_part_field (split2 boost (c ∷ line) b':') part)

  unfoldable pub part_loop : ℕ → Text → FormPart → PartHeaders
  part_loop zero rest part = headers_spent
  part_loop (suc fuel) rest part = part_round (part_loop fuel) (next_line rest) part

  -- `ParsePartHeaders`: each line takes two bytes at least
  unfoldable pub parse_part_headers : Text → FormPart → PartHeaders
  unfolding part_loop
  parse_part_headers pending part = part_loop (suc (length pending)) pending part

abbrev pub part_or_new : Option FormPart → FormPart
part_or_new none = blank_part
part_or_new (some part) = part

abbrev pub boundary_of : Parser → Text
boundary_of p = p.request.message.content_type.additional

-- `kStart`
abbrev pub start_step : (Parser → Outcome) → Option (Text × Text) → Parser → Outcome
start_step loop none p = ok p
start_step loop (some (line, rest)) p =
    let q = record p { pending = rest } in
    if is_boundary (boundary_of p) line
    then loop (record q { step = boundary_parsed })
    else reject q

-- `kBoundaryParsed`
abbrev pub headers_step : (Parser → Outcome) → PartHeaders → Parser → Outcome
headers_step loop (parsed part rest) p =
    loop (record p { part = some part; pending = rest; step = headers_parsed })
headers_step loop (refused part) p = reject (record p { part = some part })
headers_step loop (need_more part) p = ok (record p { part = some part })
headers_step loop headers_spent p = spent

-- a boundary behind the data of a part
abbrev pub add_part : Found → Parser → Parser
add_part f p = record p {
  request =
      add_form_part (append_data (take (length f.before - 2) f.before) (part_or_new p.part))
        p.request;
  pending = f.behind;
  part = none;
  step = if f.closing then ended else boundary_parsed;
}

module _ (boost : Boost) where
  -- what follows the loop
  abbrev pub close_multipart : Step → Parser → Outcome
  close_multipart ended p = finish boost p
  close_multipart _ p = ok p

  -- `kHeadersParsed`; a loop that breaks goes on with `close_multipart`
  abbrev pub data_step : (Parser → Outcome) → Search → Parser → Outcome
  data_step loop not_yet p = ok p
  data_step loop search_spent p = spent
  data_step loop (boundary_at f) p =
      if ltb 2 (length f.before)
      then (if f.closing then finish boost (add_part f p) else loop (add_part f p))
      else reject p

  -- one round of the loop of `ParseMultipartContent`; at `kEnded` no branch is taken
  abbrev pub multipart_round : (Parser → Outcome) → Step → Parser → Outcome
  multipart_round loop start p = start_step loop (next_line p.pending) p
  multipart_round loop boundary_parsed p =
      headers_step loop (parse_part_headers boost p.pending (part_or_new p.part)) p
  multipart_round loop headers_parsed p =
      data_step loop (get_next_boundary_line (boundary_of p) p.pending) p
  multipart_round loop ended p = loop p

  -- The loop of `ParseMultipartContent`, and the test of `kEnded` behind it.
  unfoldable pub multipart_loop : ℕ → Parser → Outcome
  unfolding append_data finish
  multipart_loop zero p = spent
  multipart_loop (suc fuel) p =
      if equal p.pending []
      then close_multipart p.step p
      else multipart_round (multipart_loop fuel) p.step p

  -- `ParseMultipartContent`, on a number of rounds
  unfoldable pub parse_multipart_content : ℕ → Text → Parser → Outcome
  unfolding multipart_loop
  parse_multipart_content fuel arrived p =
      let q = record p { pending = p.pending ++ arrived } in
      if not q.content_length_parsed || q.content_length == invalid_length
      then reject q
      else multipart_loop fuel q
