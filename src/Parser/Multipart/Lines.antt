-- ===== src/Parser/Multipart/Lines.antt =====
-- webcc/request_parser.cc: `GetNextBoundaryLine` on data of several lines in front of a boundary.
use devops_workshop.Http.Globals.{crlf}
use devops_workshop.Parser.Multipart.{
  boundary_at, same_prefix, sets_end, is_boundary, scan_round, scan, get_next_boundary_line,
}
use devops_workshop.Parser.Multipart.Boundary.{
  inner_line, closing-Lacks, closing_line, closing_dashed, closing_longer, closing_length,
  closing_sets_end, found_at, scan-inner,
}
use devops_workshop.Prelude.{
  ℕ, suc, ◌+◌, ◌-◌, ◌≤◌, ◌≡◌, refl, sym, ap, ◌∙◌, Bool, true, false, some, List, [], ◌∷◌, ◌++◌,
  append_assoc, append-nil, arith, length, length-append, All,
}
use devops_workshop.Bytes.{Text, Lacks, codes, next_line, next_line_lem, next_line-append}

abbrev pub marker : Bool → Text → Text
marker true boundary = closing_line boundary
marker false boundary = inner_line boundary

-- lines, each with its line break
abbrev pub lines_text : List Text → Text
lines_text [] = []
lines_text (l ∷ ls) = l ++ 13 ∷ 10 ∷ lines_text ls

-- A line that can stand in the data of a part: it holds no line break, and it is no boundary line
-- and does not have the form of a closing one.
pub record IsInside (boundary line : Text) : Type 0 where
  pub one_line : next_line (line ++ crlf) ≡ some (line, [])
  pub no_boundary : is_boundary boundary line ≡ false
  pub no_end : sets_end boundary line ≡ false

same_prefix-append : (a b : Text) → same_prefix a (a ++ b) ≡ true
unfolding same_prefix
same_prefix-append [] b = refl
same_prefix-append (x ∷ a) b = ground (arith, same_prefix-append a b)

closing_is_boundary : (b : Text) → is_boundary b (closing_line b) ≡ true
unfolding is_boundary
closing_is_boundary b =
    rw (closing_longer b, closing_length b, closing_dashed b, same_prefix-append b (codes "--"))
      refl

-- A line inside the data is skipped.
scan-inside :
    (fuel : ℕ) (boundary before line rest : Text)
    → IsInside boundary line
    → scan (suc fuel) boundary before (line ++ 13 ∷ 10 ∷ rest) false
      ≡ scan fuel boundary (before ++ (line ++ crlf)) rest false
unfolding scan
scan-inside fuel boundary before line rest i =
    ap (λ o. scan_round (λ b r d. scan fuel boundary b r d) boundary o before false)
      (ap next_line (sym (append_assoc line crlf rest))
        ∙ next_line-append (line ++ crlf) rest i.one_line)
    ∙ skip line i
  where
    skip :
        (l : Text)
        → IsInside boundary l
        → scan_round (λ b r d. scan fuel boundary b r d) boundary (some (l, rest)) before false
          ≡ scan fuel boundary (before ++ (l ++ crlf)) rest false
    skip [] i = refl
    skip (c ∷ l) i = rw (i.no_boundary, i.no_end) refl

scan-marker :
    (fuel : ℕ) (boundary before rest : Text) (last : Bool)
    → Lacks 13 boundary
    → scan (suc fuel) boundary before (marker last boundary ++ (13 ∷ 10 ∷ rest)) false
      ≡ boundary_at (found_at before rest last)
unfolding scan
scan-marker fuel boundary before rest false l = scan-inner fuel boundary before rest false l
scan-marker fuel boundary before rest true l =
    ap (λ o. scan_round (λ b r d. scan fuel boundary b r d) boundary o before false)
      (next_line_lem (closing_line boundary) rest (closing-Lacks boundary l))
    ∙ rw (closing_is_boundary boundary, closing_sets_end boundary) refl

-- one round for each line, and more
abbrev rounds : List Text → ℕ → ℕ
rounds [] n = n
rounds (x ∷ xs) n = suc (rounds xs n)

rounds_lem : (lines : List Text) (n : ℕ) → rounds lines n ≡ length lines + n
rounds_lem [] n = omega arith
rounds_lem (x ∷ xs) n = omega (arith, rounds_lem xs n)

scan-lines :
    (lines : List Text) (fuel : ℕ) (boundary before rest : Text) (last : Bool)
    → Lacks 13 boundary
    → All (IsInside boundary) lines
    → scan
        (rounds lines (suc fuel))
        boundary
        before
        (lines_text lines ++ (marker last boundary ++ (13 ∷ 10 ∷ rest)))
        false
      ≡ boundary_at (found_at (before ++ lines_text lines) rest last)
scan-lines [] fuel boundary before rest last l a =
    scan-marker fuel boundary before rest last l
    ∙ ap (λ t. boundary_at (found_at t rest last)) (sym (append-nil before))
scan-lines (x ∷ xs) fuel boundary before rest last l a =
    let tail = marker last boundary ++ (13 ∷ 10 ∷ rest) in
    ap (λ t. scan (suc (rounds xs (suc fuel))) boundary before t false)
      (append_assoc x (13 ∷ 10 ∷ lines_text xs) tail)
    ∙ scan-inside (rounds xs (suc fuel)) boundary before x (lines_text xs ++ tail) a.0
    ∙ scan-lines xs fuel boundary (before ++ (x ++ crlf)) rest last l a.1
    ∙ ap (λ t. boundary_at (found_at t rest last))
        (append_assoc before (x ++ crlf) (lines_text xs)
          ∙ ap (λ t. before ++ t) (append_assoc x crlf (lines_text xs)))

length-lines_text : (lines : List Text) → length lines ≤ length (lines_text lines)
length-lines_text [] = omega arith
length-lines_text (x ∷ xs) =
    omega (arith, length-lines_text xs, length-append x (13 ∷ 10 ∷ lines_text xs))

-- Data whose lines are inside it, in front of a boundary line: the boundary is found behind the data,
-- and is taken for the closing one if it is.
pub get_next_boundary_line-lines :
    (lines : List Text) (boundary rest : Text) (last : Bool)
    → Lacks 13 boundary
    → All (IsInside boundary) lines
    → get_next_boundary_line boundary
        (lines_text lines ++ (marker last boundary ++ (13 ∷ 10 ∷ rest)))
      ≡ boundary_at (found_at (lines_text lines) rest last)
unfolding get_next_boundary_line
get_next_boundary_line-lines lines boundary rest last l a =
    let all = lines_text lines ++ (marker last boundary ++ (13 ∷ 10 ∷ rest)) in
    let enough : suc (length all) ≡ rounds lines (suc (length all - length lines)) = omega (
      arith,
      rounds_lem lines (suc (length all - length lines)),
      length-lines_text lines,
      length-append (lines_text lines) (marker last boundary ++ (13 ∷ 10 ∷ rest)),
    ) in
    ap (λ n. scan n boundary [] all false) enough
    ∙ scan-lines lines (length all - length lines) boundary [] rest last l a
