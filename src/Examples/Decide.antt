-- ===== src/Examples/Decide.antt =====
-- Tests that literals pass by evaluation, and what they say.

use devops_workshop.Prelude.{
  ℕ, ◌<◌, ◌≡◌, Bool, true, ◌&&◌, [], ◌∷◌, ltb, All, Bool-cases, inl, inr, arith,
}
use devops_workshop.Bytes.{Text, IsByte}

abbrev pub all_bytes : Text → Bool
all_bytes [] = true
all_bytes (c ∷ s) = ltb c 256 && all_bytes s

pub all_bytes_sound : (s : Text) → all_bytes s ≡ true → All IsByte s
all_bytes_sound [] h = tt
all_bytes_sound (c ∷ s) h = elim (Bool-cases (ltb c 256)) [
  | inl e ↦ (below c e, all_bytes_sound s (rw e at h))
  | inr e ↦ cc (rw e at h)
]
  where
    below : (x : ℕ) → ltb x 256 ≡ true → x < 256
    below x e = ground arith
