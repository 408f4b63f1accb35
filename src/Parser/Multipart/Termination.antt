-- ===== src/Parser/Multipart/Termination.antt =====
-- webcc/request_parser.cc: from every step but the last, the loop over multipart data ends.
use devops_workshop.Boost.{Boost}
use devops_workshop.Http.Globals.{invalid_length, split2, crlf}
use devops_workshop.Http.Form.{FormPart}
use devops_workshop.Parser.State.{
  Parser, Step, start, boundary_parsed, headers_parsed, ended, Outcome, reject, finish,
}
use devops_workshop.Parser.Body.Chunks.Progress.{Ends}
use devops_workshop.Parser.Multipart.{
  Search, boundary_at, not_yet, search_spent, headers_spent, sets_end, is_boundary, scan_round,
  scan, get_next_boundary_line, PartHeaders, parsed, refused, need_more, take_part_field, part_next,
  part_round, part_loop, parse_part_headers, part_or_new, boundary_of, start_step, headers_step,
  data_step, add_part, multipart_round, close_multipart, multipart_loop, parse_multipart_content,
}
use devops_workshop.Prelude.{
  ℕ, zero, suc, ◌+◌, ◌<◌, ◌≡◌, ◌≢◌, inl, inr, refl, ap, Bool, true, false, not, ◌||◌, Option, none,
  some, [], ◌∷◌, ◌++◌, arith, ltb, ◌==◌, if◌then◌else◌, Bool-cases, length, length-append,
}
use devops_workshop.Bytes.{Text, equal, next_line, length-next_line}

abbrev Behind : ℕ → Search → Type 0
Behind n not_yet = Unit
Behind n search_spent = ⊥
Behind n (boundary_at f) = length f.behind < n

-- With more rounds than bytes the search ends, and what remains behind a boundary is shorter than what
-- was searched.
scan-Behind :
    (fuel : ℕ) (boundary before rest : Text) (closing : Bool)
    → length rest < fuel
    → Behind (length rest) (scan fuel boundary before rest closing)
unfolding scan
scan-Behind zero boundary before rest closing h = absurd (omega arith)
scan-Behind (suc fuel) boundary before rest closing h =
    go (next_line rest) refl (λ b r d. scan-Behind fuel boundary b r d)
  where
    weaken : (m n : ℕ) (o : Search) → m < n → Behind m o → Behind n o
    weaken m n not_yet h b = tt
    weaken m n search_spent h b = b
    weaken m n (boundary_at f) h b = omega arith

    go :
        (o : Option (Text × Text))
        → next_line rest ≡ o
        → ((b r : Text) (d : Bool) → length r < fuel → Behind (length r) (scan fuel boundary b r d))
        → Behind
            (length rest)
            (scan_round (λ b r d. scan fuel boundary b r d) boundary o before closing)
    go none e ih = tt
    go (some ([], r)) e ih =
        weaken (length r) (length rest) _ (omega (arith, length-next_line rest e))
          (ih (before ++ crlf) r closing (omega (arith, length-next_line rest e)))
    go (some (c ∷ l, r)) e ih = elim (Bool-cases (is_boundary boundary (c ∷ l))) [
      | inl found ↦ rw found (omega (arith, length-next_line rest e))
      | inr other ↦ rw other (
          weaken (length r) (length rest) _ (omega (arith, length-next_line rest e)) (
            ih (before ++ ((c ∷ l) ++ crlf)) r (closing || sets_end boundary (c ∷ l))
              (omega (arith, length-next_line rest e))))
    ]

module _ (boost : Boost) where
  abbrev Consumed : ℕ → PartHeaders → Type 0
  Consumed n (parsed part rest) = length rest < n
  Consumed n (refused part) = Unit
  Consumed n (need_more part) = Unit
  Consumed n headers_spent = ⊥

  weaken_part : (m n : ℕ) (h : PartHeaders) → m < n → Consumed m h → Consumed n h
  weaken_part m n (parsed part rest) l c = omega arith
  weaken_part m n (refused part) l c = tt
  weaken_part m n (need_more part) l c = tt
  weaken_part m n headers_spent l c = c

  part_loop-Consumed :
      (fuel : ℕ) (s : Text) (part : FormPart)
      → length s < fuel
      → Consumed (length s) (part_loop boost fuel s part)
  unfolding part_loop
  part_loop-Consumed zero s part h = absurd (omega arith)
  part_loop-Consumed (suc fuel) s part h =
      go (next_line s) refl (λ r q. part_loop-Consumed fuel r q)
    where
      field :
          (r : Text) (o : Option FormPart)
          → length r < length s
          → ((r' : Text) (q : FormPart)
              → length r' < fuel
              → Consumed (length r') (part_loop boost fuel r' q))
          → Consumed (length s) (part_next boost (part_loop boost fuel) r part o)
      field r none l ih = tt
      field r (some q) l ih =
          weaken_part (length r) (length s) (part_loop boost fuel r q) l (ih r q (omega arith))

      go :
          (o : Option (Text × Text))
          → next_line s ≡ o
          → ((r : Text) (q : FormPart)
              → length r < fuel
              → Consumed (length r) (part_loop boost fuel r q))
          → Consumed (length s) (part_round boost (part_loop boost fuel) o part)
      go none e ih = tt
      go (some ([], r)) e ih = omega (arith, length-next_line s e)
      go (some (c ∷ l, r)) e ih =
          field r (take_part_field boost (split2 boost (c ∷ l) b':') part)
            (omega (arith, length-next_line s e)) ih

  finish-Ends : (p : Parser) → Ends (finish boost p)
  unfolding finish
  finish-Ends p = tt

  -- A round goes on only with less data, and never into the last step.
  abbrev Next : (Parser → Outcome) → Parser → Type 0
  Next loop p = (q : Parser) → length q.pending < length p.pending → q.step ≢ ended → Ends (loop q)

  start_step-Ends :
      (loop : Parser → Outcome) (p : Parser)
      → Next loop p
      → Ends (start_step loop (next_line p.pending) p)
  start_step-Ends loop p h = go (next_line p.pending) refl
    where
      go : (o : Option (Text × Text)) → next_line p.pending ≡ o → Ends (start_step loop o p)
      go none e = tt
      go (some (l, r)) e = elim (Bool-cases (is_boundary (boundary_of p) l)) [
        | inl is ↦ rw is (
            h (record p { pending = r; step = boundary_parsed })
              (omega (arith, length-next_line p.pending e)) (λ x. cc))
        | inr isnt ↦ rw isnt tt
      ]

  headers_step-Ends :
      (loop : Parser → Outcome) (p : Parser) (o : PartHeaders)
      → Consumed (length p.pending) o
      → Next loop p
      → Ends (headers_step loop o p)
  headers_step-Ends loop p (parsed part rest) c h =
      h (record p { part = some part; pending = rest; step = headers_parsed }) c (λ x. cc)
  headers_step-Ends loop p (refused part) c h = tt
  headers_step-Ends loop p (need_more part) c h = tt
  headers_step-Ends loop p headers_spent c h = absurd c

  data_step-Ends :
      (loop : Parser → Outcome) (p : Parser) (o : Search)
      → Behind (length p.pending) o
      → Next loop p
      → Ends (data_step boost loop o p)
  data_step-Ends loop p not_yet b h = tt
  data_step-Ends loop p search_spent b h = absurd b
  data_step-Ends loop p (boundary_at f) b h = elim (Bool-cases (ltb 2 (length f.before))) [
    | inr short ↦ rw short tt
    | inl long ↦ rw long (go f.closing refl)
  ]
    where
      go :
          (c : Bool)
          → f.closing ≡ c
          → Ends (if c then finish boost (add_part f p) else loop (add_part f p))
      go true e = finish-Ends (add_part f p)
      go false e =
          h (add_part f p) b
            (λ x. cc (ap (λ (d : Bool). if d then ended else boundary_parsed) e, x))

  round-Ends :
      (loop : Parser → Outcome) (s : Step) (p : Parser)
      → s ≢ ended
      → Next loop p
      → Ends (multipart_round boost loop s p)
  unfolding parse_part_headers get_next_boundary_line
  round-Ends loop start p n h = start_step-Ends loop p h
  round-Ends loop boundary_parsed p n h =
      headers_step-Ends loop p (parse_part_headers boost p.pending (part_or_new p.part))
        (part_loop-Consumed (suc (length p.pending)) p.pending (part_or_new p.part) (omega arith)) h
  round-Ends loop headers_parsed p n h =
      data_step-Ends loop p (get_next_boundary_line (boundary_of p) p.pending)
        (scan-Behind (suc (length p.pending)) (boundary_of p) [] p.pending false (omega arith)) h
  round-Ends loop ended p n h = absurd (n refl)

  close-Ends : (s : Step) (p : Parser) → Ends (close_multipart boost s p)
  close-Ends ended p = finish-Ends p
  close-Ends start p = tt
  close-Ends boundary_parsed p = tt
  close-Ends headers_parsed p = tt

  loop-Ends :
      (fuel : ℕ) (p : Parser)
      → length p.pending < fuel
      → p.step ≢ ended
      → Ends (multipart_loop boost fuel p)
  unfolding multipart_loop
  loop-Ends zero p h n = absurd (omega arith)
  loop-Ends (suc fuel) p h n = elim (Bool-cases (equal p.pending [])) [
    | inl done ↦ rw done (close-Ends p.step p)
    | inr more ↦ rw more (
        round-Ends (multipart_loop boost fuel) p.step p n
          (λ q l m. loop-Ends fuel q (omega arith) m))
  ]

  -- From every step but the last, with more fuel than bytes that wait and arrive, the loop over
  -- multipart data ends.
  pub parse_multipart_content-Ends :
      (fuel : ℕ) (arrived : Text) (p : Parser)
      → p.step ≢ ended
      → length p.pending + length arrived < fuel
      → Ends (parse_multipart_content boost fuel arrived p)
  unfolding parse_multipart_content
  parse_multipart_content-Ends fuel arrived p n h =
      go (not p.content_length_parsed || p.content_length == invalid_length)
    where
      q : Parser
      q = record p { pending = p.pending ++ arrived }

      go : (b : Bool) → Ends (if b then reject q else multipart_loop boost fuel q)
      go true = tt
      go false = loop-Ends fuel q (omega (arith, length-append p.pending arrived)) n
