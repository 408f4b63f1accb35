-- ===== src/Bytes/Defs.antt =====
-- Texts, their comparison, and the searches of std::string.
use Prim.Native.Char.{code}
use Prim.Native.String.{String}
use mathlib.Core.Option
use devops_workshop.Prelude.{
  ℕ, ◌<◌, ◌≢◌, Bool, true, false, ◌&&◌, Option, none, some, List, [], ◌∷◌, ◌==◌, if◌then◌else◌, All,
}

abbrev pub Text : Type 0
Text = List ℕ

-- A text literal, all of ASCII.
abbrev pub codes : String → Text
codes String.[] = []
codes (String.◌∷◌ c s) = code c ∷ codes s

abbrev pub IsByte : ℕ → Type 0
IsByte c = c < 256

abbrev pub Lacks : ℕ → Text → Type 0
Lacks c = All (λ x. x ≢ c)

-- `operator==`
unfoldable pub equal : Text → Text → Bool
equal [] [] = true
equal (x ∷ xs) (y ∷ ys) = x == y && equal xs ys
equal _ _ = false

abbrev pub prepend : ℕ → Option (Text × Text) → Option (Text × Text)
prepend x none = none
prepend x (some (a, b)) = some (x ∷ a, b)

-- `find(c)`, with `substr(0, pos)` and `substr(pos + 1)`
unfoldable pub cut : ℕ → Text → Option (Text × Text)
cut c [] = none
cut c (x ∷ xs) = if x == c then some ([], xs) else prepend x (cut c xs)

-- the text behind a prefix
unfoldable pub strip : Text → Text → Option Text
strip [] s = some s
strip (p ∷ ps) [] = none
strip (p ∷ ps) (x ∷ xs) = if x == p then strip ps xs else none

-- `find(p)`, with `substr(0, pos)` and `substr(pos + p.size())`
unfoldable pub cut_on : Text → Text → Option (Text × Text)
unfolding strip
cut_on p [] = Option.map (λ r. ([], r)) (strip p [])
cut_on p (x ∷ xs) =
    let later = prepend x (cut_on p xs) in
    elim (strip p (x ∷ xs)) [ some r ↦ some ([], r) | none ↦ later ]

-- `find("\r\n")`, with the line before it and the data behind it
unfoldable pub next_line : Text → Option (Text × Text)
next_line [] = none
next_line (x ∷ []) = none
next_line (x ∷ y ∷ s) =
    let later = prepend x (next_line (y ∷ s)) in if x == 13 && y == 10 then some ([], s) else later
