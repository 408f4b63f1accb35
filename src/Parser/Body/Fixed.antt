-- ===== src/Parser/Body/Fixed.antt =====
-- webcc/parser.cc: content of a known length may arrive in pieces.
use devops_workshop.Boost.{Boost}
use devops_workshop.Http.Globals.{invalid_length}
use devops_workshop.Parser.State.{Parser, ok, reject, finish, store_content}
use devops_workshop.Parser.HeaderLines.Frame.{push}
use devops_workshop.Parser.HeaderLines.Pieces.{ok-injective}
use devops_workshop.Parser.Body.{is_content_full, filled, finish_if_full, parse_fixed_content}
use devops_workshop.Prelude.{
  ◌≡◌, inl, inr, refl, sym, ap, ◌∙◌, Bool, true, false, not, [], ◌∷◌, ◌++◌, append_assoc,
  append-nil, ◌==◌, if◌then◌else◌, Bool-cases,
}
use devops_workshop.Bytes.{Text}

filled-append : (a b : Text) (m : Parser) → filled (a ++ b) m ≡ filled b (filled a m)
filled-append a b m = λ i. record m {
  content =
      (sym (append_assoc (m.content ++ m.pending) a b)
          ∙ ap (λ t. t ++ b) (sym (append-nil ((m.content ++ m.pending) ++ a))))
        i;
  pending = [];
}

filled-push : (b : Text) (m : Parser) → filled [] (push b m) ≡ filled b m
filled-push b m = λ i. record m {
  content =
      (append-nil (m.content ++ (m.pending ++ b)) ∙ sym (append_assoc m.content m.pending b)) i;
  pending = [];
}

module _ (boost : Boost) where
  finished_store : (c : Text) (p : Parser) → (store_content boost c p).finished ≡ p.finished
  finished_store [] p = refl
  finished_store (x ∷ c) p = refl

  finish-unfinished : (p q : Parser) → finish boost p ≡ ok q → q.finished ≡ false → ⊥
  unfolding finish
  finish-unfinished p q e u = cc (
    ap (λ (x : Parser). x.finished) (ok-injective _ q e),
    finished_store p.content (record p { finished = true }),
    u,
  )

  unfinished-full : (p q : Parser) → finish_if_full boost p ≡ ok q → q.finished ≡ false → p ≡ q
  unfinished-full p q e u = elim (Bool-cases (is_content_full p)) [
    | inl full ↦ absurd (finish-unfinished p q (rw full at e) u)
    | inr open_ ↦ ok-injective p q (rw open_ at e)
  ]

  -- The header announced a length, and it is not `kInvalidLength`.
  abbrev pub HasLength : Parser → Type 0
  HasLength m = (m.content_length_parsed ≡ true) × ((m.content_length == invalid_length) ≡ false)

  pub fixed-open :
      (a : Text) (m : Parser)
      → HasLength m
      → parse_fixed_content boost a m ≡ finish_if_full boost (filled a m)
  unfolding parse_fixed_content
  fixed-open a m (p, v) =
      ap
        (λ b.
          if not b
          then finish boost m
          else if m.content_length == invalid_length
          then reject m
          else finish_if_full boost (filled a m))
        p
      ∙ ap (λ b. if b then reject m else finish_if_full boost (filled a m)) v

  -- A call that accepts its data and does not finish found a length in the headers.
  unfinished-HasLength :
      (a : Text) (m q : Parser)
      → parse_fixed_content boost a m ≡ ok q
      → q.finished ≡ false
      → HasLength m
  unfolding parse_fixed_content
  unfinished-HasLength a m q e u =
      go m.content_length_parsed refl (m.content_length == invalid_length) refl e
    where
      go :
          (b : Bool)
          → m.content_length_parsed ≡ b
          → (c : Bool) → (m.content_length == invalid_length) ≡ c
          → (if not b
              then finish boost m
              else if c
              then reject m
              else finish_if_full boost (filled a m))
            ≡ ok q
          → HasLength m
      go false p c v r = absurd (finish-unfinished m q r u)
      go true p true v r = absurd (cc)
      go true p false v r = (p, v)

  -- If the content is not complete after the first piece, then the call has only stored it.
  pub fixed-filled :
      (a : Text) (m q : Parser)
      → parse_fixed_content boost a m ≡ ok q
      → q.finished ≡ false
      → HasLength m × (filled a m ≡ q)
  fixed-filled a m q e u =
      let h = unfinished-HasLength a m q e u in
      (h, unfinished-full (filled a m) q (sym (fixed-open a m h) ∙ e) u)

  -- Content that comes in two pieces is parsed as if it came at once.
  pub fixed-append :
      (a b : Text) (m q : Parser)
      → parse_fixed_content boost a m ≡ ok q
      → q.finished ≡ false
      → parse_fixed_content boost (a ++ b) m ≡ parse_fixed_content boost b q
  fixed-append a b m q e u =
      let (h, s) = fixed-filled a m q e u in
      fixed-open (a ++ b) m h
      ∙ ap (finish_if_full boost) (filled-append a b m)
      ∙ sym (fixed-open b (filled a m) h)
      ∙ ap (parse_fixed_content boost b) s

  -- Where a length was announced it makes no difference whether data waits or arrives.
  pub fixed-push :
      (b : Text) (m : Parser)
      → HasLength m
      → parse_fixed_content boost [] (push b m) ≡ parse_fixed_content boost b m
  fixed-push b m h =
      fixed-open [] (push b m) h
      ∙ ap (finish_if_full boost) (filled-push b m)
      ∙ sym (fixed-open b m h)
