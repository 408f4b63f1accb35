-- ===== src/Parser/Multipart/Boundary.antt =====
-- webcc/request_parser.cc: what `GetNextBoundaryLine` takes for the last boundary.
use devops_workshop.Http.Globals.{crlf}
use devops_workshop.Parser.Multipart.{
  ends_dashed, boundary_at, same_prefix, sets_end, is_boundary, Found, scan_round, scan,
  get_next_boundary_line,
}
use devops_workshop.Prelude.{
  ℕ, suc, ◌≡◌, refl, ap, ◌∙◌, Bool, true, false, ◌||◌, ◌∷◌, ◌++◌, arith, if◌then◌else◌, length,
  length-append, drop, drop-append, ◌+◌, ◌-◌, ◌==◌, ◌≢◌, All-append, ◌&&◌, ◌⊎◌, inl, inr,
  Bool-cases, sym, [],
}
use devops_workshop.Bytes.{Text, Lacks, codes, equal, next_line_lem}

-- a boundary line that does not close
abbrev pub inner_line : Text → Text
inner_line boundary = b'-' ∷ b'-' ∷ boundary

same_prefix_refl : (a : Text) → same_prefix a a ≡ true
unfolding same_prefix
same_prefix_refl [] = refl
same_prefix_refl (x ∷ a) = ground (arith, same_prefix_refl a)

pub inner_is_boundary : (b : Text) → is_boundary b (inner_line b) ≡ true
unfolding is_boundary
inner_is_boundary b = ground (arith, same_prefix_refl b)

inner_sets_no_end : (b : Text) → sets_end b (inner_line b) ≡ false
unfolding sets_end
inner_sets_no_end b = ground arith

abbrev pub found_at : Text → Text → Bool → Found
found_at before behind closing = record { before = before; behind = behind; closing = closing }

-- The first of the lines that are no boundary is skipped.
pub scan-other :
    (fuel : ℕ) (boundary before : Text) (c : ℕ) (line rest : Text) (closing : Bool)
    → Lacks 13 (c ∷ line)
    → is_boundary boundary (c ∷ line) ≡ false
    → scan (suc fuel) boundary before ((c ∷ line) ++ (13 ∷ 10 ∷ rest)) closing
      ≡ scan fuel boundary
          (before ++ ((c ∷ line) ++ crlf))
          rest
          (closing || sets_end boundary (c ∷ line))
unfolding scan
scan-other fuel boundary before c line rest closing l n =
    ap (λ o. scan_round (λ b r d. scan fuel boundary b r d) boundary o before closing)
      (next_line_lem (c ∷ line) rest l)
    ∙ ap
        (λ b.
          if b
          then boundary_at (record {
            before = before;
            behind = rest;
            closing = closing || sets_end boundary (c ∷ line);
          })
          else scan fuel boundary (before ++ ((c ∷ line) ++ crlf)) rest
              (closing || sets_end boundary (c ∷ line)))
        n

pub scan-inner :
    (fuel : ℕ) (boundary before rest : Text) (closing : Bool)
    → Lacks 13 boundary
    → scan (suc fuel) boundary before (inner_line boundary ++ (13 ∷ 10 ∷ rest)) closing
      ≡ boundary_at (record { before = before; behind = rest; closing = closing })
unfolding scan
scan-inner fuel boundary before rest closing l =
    ap (λ o. scan_round (λ b r d. scan fuel boundary b r d) boundary o before closing)
      (next_line_lem (inner_line boundary) rest
        ((λ e. absurd (omega arith)), ((λ e. absurd (omega arith)), l)))
    ∙ rw (inner_is_boundary boundary, inner_sets_no_end boundary) (keep closing)
  where
    keep :
        (d : Bool)
        → boundary_at (found_at before rest (d || false)) ≡ boundary_at (found_at before rest d)
    keep true = refl
    keep false = refl

-- the boundary line that closes the body
abbrev pub closing_line : Text → Text
closing_line boundary = inner_line boundary ++ codes "--"

pub closing_dashed : (b : Text) → ends_dashed (closing_line b) ≡ true
unfolding equal
closing_dashed b =
    let e : length (closing_line b) - 2 ≡ length (inner_line b) =
      omega (arith, length-append b (codes "--")) in
    ap (λ n. equal (drop n (closing_line b)) (codes "--")) e
    ∙ ap (λ t. equal t (codes "--")) (drop-append (inner_line b) (codes "--"))

pub closing_longer : (b : Text) → (length (closing_line b) == length b + 2) ≡ false
closing_longer b = ground (arith, length-append b (codes "--"))

pub closing_length : (b : Text) → (length (closing_line b) == length b + 4) ≡ true
closing_length b = ground (arith, length-append b (codes "--"))

pub closing_sets_end : (b : Text) → sets_end b (closing_line b) ≡ true
unfolding sets_end
closing_sets_end b = rw (closing_length b, closing_dashed b) refl

-- Texts of one length without a null character that `strncmp` takes for the same are the same.
same_prefix_eq :
    (a b t : Text) → length a ≡ length b → Lacks 0 a → same_prefix a (b ++ t) ≡ true → a ≡ b
unfolding same_prefix
same_prefix_eq [] [] t n l e = refl
same_prefix_eq [] (y ∷ b) t n l e = absurd (omega arith)
same_prefix_eq (x ∷ a) [] t n l e = absurd (omega arith)
same_prefix_eq (x ∷ a) (y ∷ b) t n l e =
    let (same, later) = agree (x == y) (x == 0) (same_prefix a (b ++ t)) (dec_false l.0) e in
    rw (eq_sound x y same) (ap (λ (s : Text). y ∷ s) (same_prefix_eq a b t (omega arith) l.1 later))
  where
    agree : (p q r : Bool) → q ≡ false → (p && (q || r)) ≡ true → (p ≡ true) × (r ≡ true)
    agree true true r f g = absurd (cc)
    agree true false r f g = (refl, g)
    agree false q r f g = absurd (cc)

    dec_false : x ≢ 0 → (x == 0) ≡ false
    dec_false h = grind arith

    eq_sound : (u v : ℕ) → (u == v) ≡ true → u ≡ v
    eq_sound u v h = grind arith

pub closing-Lacks : (b : Text) → Lacks 13 b → Lacks 13 (closing_line b)
closing-Lacks b l = (
  (λ e. absurd (omega arith)),
  (
    (λ e. absurd (omega arith)),
    All-append (λ x. x ≢ 13) b (codes "--") l
        ((λ e. absurd (omega arith)), ((λ e. absurd (omega arith)), tt)),
  ),
)

-- A line with the form of a closing boundary, of another text than the boundary, is no boundary line.
closing_other :
    (boundary other : Text)
    → length other ≡ length boundary
    → Lacks 0 boundary
    → other ≢ boundary
    → is_boundary boundary (closing_line other) ≡ false
unfolding is_boundary
closing_other boundary other n l d =
    let longer : (length (closing_line other) == length boundary + 2) ≡ false =
      rw (← n) (closing_longer other) in
    let long : (length (closing_line other) == length boundary + 4) ≡ true =
      rw (← n) (closing_length other) in
    rw (longer, long, closing_dashed other)
      (no_prefix (Bool-cases (same_prefix boundary (other ++ codes "--"))))
  where
    no_prefix :
        (same_prefix boundary (other ++ codes "--") ≡ true)
          ⊎ (same_prefix boundary (other ++ codes "--") ≡ false)
        → same_prefix boundary (other ++ codes "--") ≡ false
    no_prefix (inl e) = absurd (d (sym (same_prefix_eq boundary other (codes "--") (sym n) l e)))
    no_prefix (inr e) = e

closing_other_sets_end :
    (boundary other : Text)
    → length other ≡ length boundary
    → sets_end boundary (closing_line other) ≡ true
unfolding sets_end
closing_other_sets_end boundary other n =
    let long : (length (closing_line other) == length boundary + 4) ≡ true =
      rw (← n) (closing_length other) in
    rw (long, closing_dashed other) refl

-- Data of one line that begins and ends with two dashes and is as long as the closing boundary, of
-- another text than the boundary, in front of a boundary line that does not close the body, where the
-- line and the boundary hold no carriage return and the boundary no null character: the boundary line
-- is found behind the data, and is taken for the closing one.
pub get_next_boundary_line-inner :
    (boundary other rest : Text)
    → Lacks 13 other
    → Lacks 13 boundary
    → Lacks 0 boundary
    → length other ≡ length boundary
    → other ≢ boundary
    → get_next_boundary_line boundary
        (closing_line other ++ (13 ∷ 10 ∷ (inner_line boundary ++ (13 ∷ 10 ∷ rest))))
      ≡ boundary_at (found_at (closing_line other ++ crlf) rest true)
unfolding get_next_boundary_line
get_next_boundary_line-inner boundary other rest l b z n d =
    let behind = inner_line boundary ++ (13 ∷ 10 ∷ rest) in
    let line = b'-' ∷ (other ++ codes "--") in
    scan-other (length ((b'-' ∷ line) ++ (13 ∷ 10 ∷ behind))) boundary [] b'-' line behind false
      (closing-Lacks other l) (closing_other boundary other n z d)
    ∙ ap
        (scan (length ((b'-' ∷ line) ++ (13 ∷ 10 ∷ behind))) boundary ((b'-' ∷ line) ++ crlf)
          behind)
        (closing_other_sets_end boundary other n)
    ∙ scan-inner (length (line ++ (13 ∷ 10 ∷ behind))) boundary ((b'-' ∷ line) ++ crlf) rest true b
