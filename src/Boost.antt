-- ===== src/Boost.antt =====
-- What facedetection_va/webcc uses of boost/algorithm/string.hpp, which the repository does not
-- hold: the operations, and what their documentation says of them in the classic locale.
use devops_workshop.Prelude.{
  ℕ, ◌-◌, ◌≡◌, ◌≢◌, inl, inr, refl, sym, ap, ◌∙◌, Bool, true, false, not, ◌&&◌, ◌||◌, List, [], ◌∷◌,
  ◌++◌, map, leb, ◌==◌, if◌then◌else◌, Bool-cases, All,
}
use devops_workshop.Bytes.{Text, Lacks, equal, equal_iff, equal_refl, equal_comm}

-- `std::isspace` in the classic locale
abbrev pub is_space : ℕ → Bool
is_space c = c == b' ' || (leb 9 c && leb c 13)

-- `std::toupper` in the classic locale
abbrev pub to_upper : ℕ → ℕ
to_upper c = if leb b'a' c && leb c b'z' then c - 32 else c

abbrev pub IsSolid : ℕ → Type 0
IsSolid c = is_space c ≡ false

-- Tokens joined by one separator each.
abbrev pub joined : ℕ → Text → List Text → Text
joined c first [] = first
joined c first (t ∷ ts) = first ++ c ∷ joined c t ts

pub record Boost : Type 0 where
  pub trim : Text → Text
  pub trim_left : Text → Text
  pub iequals : Text → Text → Bool
  -- `split(_, is_any_of(" "), token_compress_on)`
  pub split_spaces : Text → List Text
  -- `split(_, is_any_of(";"))`
  pub split_semicolons : Text → List Text
  -- `trim_if(_, is_any_of("\""))`
  pub trim_quotes : Text → Text
  pub trim_solid :
      (c d : ℕ) (s : Text) → IsSolid c → IsSolid d → trim (c ∷ (s ++ d ∷ [])) ≡ c ∷ (s ++ d ∷ [])
  pub trim_one : (c : ℕ) → IsSolid c → trim (c ∷ []) ≡ c ∷ []
  pub trim_nil : trim [] ≡ []
  pub trim_space : (c : ℕ) (s : Text) → is_space c ≡ true → trim (c ∷ s) ≡ trim s
  pub trim_left_nil : trim_left [] ≡ []
  pub trim_left_solid : (c : ℕ) (s : Text) → IsSolid c → trim_left (c ∷ s) ≡ c ∷ s
  pub trim_left_space : (c : ℕ) (s : Text) → is_space c ≡ true → trim_left (c ∷ s) ≡ trim_left s
  pub trim_quotes_quoted : (s : Text) → Lacks 34 s → trim_quotes (34 ∷ (s ++ 34 ∷ [])) ≡ s
  pub iequals_fold : (a b : Text) → iequals a b ≡ equal (map to_upper a) (map to_upper b)
  pub split_spaces_joined :
      (t : Text) (ts : List Text)
      → All (λ s. (s ≢ []) × Lacks b' ' s) (t ∷ ts)
      → split_spaces (joined b' ' t ts) ≡ t ∷ ts
  pub split_semicolons_joined :
      (t : Text) (ts : List Text)
      → All (Lacks b';') (t ∷ ts)
      → split_semicolons (joined b';' t ts) ≡ t ∷ ts

module _ (boost : Boost) where
  open boost use {iequals, iequals_fold}

  pub iequals_refl : (a : Text) → iequals a a ≡ true
  iequals_refl a = iequals_fold a a ∙ equal_refl (map to_upper a)

  pub iequals_sound : (a b : Text) → iequals a b ≡ true → map to_upper a ≡ map to_upper b
  iequals_sound a b h = (equal_iff _ _).0 (sym (iequals_fold a b) ∙ h)

  -- Texts that are equal but for case are equal to the same texts but for case.
  pub iequals_left : (a b c : Text) → iequals a b ≡ true → iequals a c ≡ iequals b c
  iequals_left a b c h =
      iequals_fold a c
      ∙ ap (λ t. equal t (map to_upper c)) (iequals_sound a b h)
      ∙ sym (iequals_fold b c)

  pub iequals_comm : (a b : Text) → iequals a b ≡ iequals b a
  iequals_comm a b =
      iequals_fold a b ∙ equal_comm (map to_upper a) (map to_upper b) ∙ sym (iequals_fold b a)

-- A text splits into what stands before its last character, and that character.
pub snoc :
    (c : ℕ) (s : Text)
    → All IsSolid (c ∷ s)
    → (a : Text) × (d : ℕ) × (c ∷ s ≡ a ++ d ∷ []) × IsSolid d
snoc c [] h = ([], c, refl, h.0)
snoc c (x ∷ s) h = let (a, d, e, k) = snoc x s h.1 in (c ∷ a, d, ap (◌∷◌ c) e, k)

-- `trim` leaves a text without spaces alone.
pub trim-word : (boost : Boost) (s : Text) → All IsSolid s → boost.trim s ≡ s
trim-word boost [] h = boost.trim_nil
trim-word boost (c ∷ []) h = boost.trim_one c h.0
trim-word boost (c ∷ x ∷ s) h =
    let (a, d, e, k) = snoc x s h.1 in rw e (boost.trim_solid c d a h.0 k)

-- A test for words without spaces, which literals pass by evaluation.
abbrev pub all_solid : Text → Bool
all_solid [] = true
all_solid (c ∷ s) = not (is_space c) && all_solid s

pub all_solid_sound : (s : Text) → all_solid s ≡ true → All IsSolid s
all_solid_sound [] h = tt
all_solid_sound (c ∷ s) h = elim (Bool-cases (is_space c)) [
  | inl e ↦ cc (rw e at h)
  | inr e ↦ (e, all_solid_sound s (rw e at h))
]
