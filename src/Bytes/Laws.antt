-- ===== src/Bytes/Laws.antt =====
-- What a search returns determines the text, and the other way round.
use devops_workshop.Prelude.{
  Bool, false, not, ◌≢◌, ℕ, ◌≡◌, ◌↔◌, inl, inr, refl, true, ◌&&◌, Option, none, some, [], ◌∷◌, ◌++◌,
  ◌==◌, ◌+◌, arith, length, ap, Bool-cases,
}
use devops_workshop.Bytes.Defs.{Text, Lacks, equal, prepend, cut, strip, cut_on, next_line}

pub equal_iff : (a b : Text) → (equal a b ≡ true) ↔ (a ≡ b)
unfolding equal
equal_iff (x ∷ a) (y ∷ b) = ground (arith, equal_iff a b)
equal_iff _ _ = ground arith

pub equal_refl : (a : Text) → equal a a ≡ true
equal_refl a = (equal_iff a a).1 refl

pub equal_comm : (a b : Text) → equal a b ≡ equal b a
unfolding equal
equal_comm (x ∷ a) (y ∷ b) = ground (arith, equal_comm a b)
equal_comm [] (y ∷ b) = refl
equal_comm (x ∷ a) [] = refl
equal_comm [] [] = refl

-- The text before the first separator lacks it.
pub cut_lem : (c : ℕ) (a b : Text) → Lacks c a → cut c (a ++ c ∷ b) ≡ some (a, b)
unfolding cut
cut_lem c [] b h = ground arith
cut_lem c (x ∷ a) b h = ground (arith, cut_lem c a b h.1)

pub cut-none : (c : ℕ) (s : Text) → Lacks c s → cut c s ≡ none
unfolding cut
cut-none c [] h = refl
cut-none c (x ∷ s) h = ground (arith, cut-none c s h.1)

pub prepend-eq-some :
    (x : ℕ) (o : Option (Text × Text)) {a b : Text}
    → prepend x o ≡ some (a, b)
    → (a' : Text) × (o ≡ some (a', b)) × (a ≡ x ∷ a')
prepend-eq-some x none e = absurd (cc)
prepend-eq-some x (some (c, d)) e = (c, ground arith, ground arith)

pub cut_sound :
    (c : ℕ) (s : Text) {a b : Text} → cut c s ≡ some (a, b) → (s ≡ a ++ c ∷ b) × Lacks c a
unfolding cut
cut_sound c [] e = absurd (cc)
cut_sound c (x ∷ s) e = elim (Bool-cases (x == c)) [
  | inl here ↦ ground arith
  | inr other ↦
      let (a', e', split) = prepend-eq-some x (cut c s) (rw other at e) in
      ground (arith, cut_sound c s e')
]

pub strip_lem : (p s : Text) → strip p (p ++ s) ≡ some s
unfolding strip
strip_lem [] s = refl
strip_lem (x ∷ p) s = ground (arith, strip_lem p s)

pub cut_on_lem :
    (p : ℕ) (ps a b : Text) → Lacks p a → cut_on (p ∷ ps) (a ++ p ∷ (ps ++ b)) ≡ some (a, b)
unfolding cut_on strip
cut_on_lem p ps [] b h = ground (arith, strip_lem ps b)
cut_on_lem p ps (x ∷ a) b h = ground (arith, cut_on_lem p ps a b h.1)

-- A line that is complete stays so when more data arrives.
pub next_line-append :
    (s t : Text) {l r : Text} → next_line s ≡ some (l, r) → next_line (s ++ t) ≡ some (l, r ++ t)
unfolding next_line
next_line-append [] t e = absurd (cc)
next_line-append (x ∷ []) t e = absurd (cc)
next_line-append (x ∷ y ∷ s) t e = elim (Bool-cases (x == 13 && y == 10)) [
  | inl here ↦ ground arith
  | inr other ↦
      let (a', e', split) = prepend-eq-some x (next_line (y ∷ s)) (rw other at e) in
      rw other (rw (next_line-append (y ∷ s) t e') (ground arith))
]

pub length-next_line :
    (s : Text) {l r : Text} → next_line s ≡ some (l, r) → length s ≡ length l + 2 + length r
unfolding next_line
length-next_line [] e = absurd (cc)
length-next_line (x ∷ []) e = absurd (cc)
length-next_line (x ∷ y ∷ s) {l} {r} e = elim (Bool-cases (x == 13 && y == 10)) [
  | inl here ↦ ground arith
  | inr other ↦
      let (a', e', split) = prepend-eq-some x (next_line (y ∷ s)) (rw other at e) in
      omega (arith, length-next_line (y ∷ s) e', ap length split)
]

-- A line without carriage returns is read up to its end.
pub next_line_lem : (l r : Text) → Lacks 13 l → next_line (l ++ 13 ∷ 10 ∷ r) ≡ some (l, r)
unfolding next_line
next_line_lem [] r h = refl
next_line_lem (x ∷ []) r h = ground (arith, next_line_lem [] r tt)
next_line_lem (x ∷ y ∷ l) r h = ground (arith, next_line_lem (y ∷ l) r h.1)

-- A test for a character, which literals pass by evaluation.
abbrev pub lacks : ℕ → Text → Bool
lacks c [] = true
lacks c (x ∷ s) = not (x == c) && lacks c s

pub lacks_sound : (c : ℕ) (s : Text) → lacks c s ≡ true → Lacks c s
lacks_sound c [] h = tt
lacks_sound c (x ∷ s) h = elim (Bool-cases (x == c)) [
  | inl e ↦ cc (rw e at h)
  | inr e ↦ (differs x e, lacks_sound c s (rw e at h))
]
  where
    differs : (y : ℕ) → (y == c) ≡ false → y ≢ c
    differs y e = ground arith
