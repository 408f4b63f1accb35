-- ===== src/Examples/AsciiBoost.antt =====
-- The operations of boost/algorithm/string.hpp for ASCII text: they meet what `Boost` asks for.
use devops_workshop.Boost.{Boost, IsSolid, is_space, to_upper, joined}
use devops_workshop.Prelude.{
  ℕ, ◌≡◌, ◌≢◌, refl, ap, ◌∙◌, Bool, true, false, ◌&&◌, List, [], ◌∷◌, ◌++◌, map, arith, ◌==◌,
  if◌then◌else◌, All,
}
use devops_workshop.Bytes.{Text, Lacks, equal}

unfoldable pub trim_left : Text → Text
trim_left [] = []
trim_left (c ∷ s) = let rest = trim_left s in if is_space c then rest else c ∷ s

-- drops what passes the test from the end
unfoldable pub drop_end : (ℕ → Bool) → Text → Text
drop_end test [] = []
drop_end test (c ∷ s) =
    let rest = drop_end test s in if equal rest [] && test c then [] else c ∷ rest

unfoldable pub trim : Text → Text
unfolding trim_left drop_end equal
trim s = drop_end is_space (trim_left s)

is_quote : ℕ → Bool
is_quote c = c == 34

unfoldable pub drop_quotes : Text → Text
unfolding is_quote
drop_quotes [] = []
drop_quotes (c ∷ s) = let rest = drop_quotes s in if is_quote c then rest else c ∷ s

unfoldable pub trim_quotes : Text → Text
unfolding drop_quotes drop_end equal
trim_quotes s = drop_end is_quote (drop_quotes s)

abbrev prefix_first : ℕ → List Text → List Text
prefix_first c [] = (c ∷ []) ∷ []
prefix_first c (t ∷ ts) = (c ∷ t) ∷ ts

unfoldable pub split : ℕ → Text → List Text
split c [] = [] ∷ []
split c (x ∷ s) = let rest = split c s in if x == c then [] ∷ rest else prefix_first x rest

-- adjacent separators count as one
unfoldable pub split_compress : ℕ → Bool → Text → List Text
split_compress c after [] = [] ∷ []
split_compress c after (x ∷ s) =
    let next = split_compress c true s in
    let same = split_compress c false s in
    if x == c then (if after then next else [] ∷ next) else prefix_first x same

split-word : (c : ℕ) (t s : Text) → Lacks c t → split c (t ++ c ∷ s) ≡ t ∷ split c s
unfolding split
split-word c [] s h = ground arith
split-word c (x ∷ t) s h = ground (arith, split-word c t s h.1)

split-last : (c : ℕ) (t : Text) → Lacks c t → split c t ≡ t ∷ []
unfolding split
split-last c [] h = refl
split-last c (x ∷ t) h = ground (arith, split-last c t h.1)

pub split-joined :
    (c : ℕ) (t : Text) (ts : List Text) → All (Lacks c) (t ∷ ts) → split c (joined c t ts) ≡ t ∷ ts
split-joined c t [] h = split-last c t h.0
split-joined c t (u ∷ ts) h =
    split-word c t (joined c u ts) h.0 ∙ ap (◌∷◌ t) (split-joined c u ts h.1)

compress-word :
    (c : ℕ) (t s : Text) (after : Bool)
    → t ≢ []
    → Lacks c t
    → split_compress c after (t ++ c ∷ s) ≡ t ∷ split_compress c true s
unfolding split_compress
compress-word c [] s after n h = absurd (n refl)
compress-word c (x ∷ []) s after n h = ground arith
compress-word c (x ∷ y ∷ t) s after n h =
    ground (arith, compress-word c (y ∷ t) s false (λ e. cc) h.1)

compress-last : (c : ℕ) (t : Text) (after : Bool) → Lacks c t → split_compress c after t ≡ t ∷ []
unfolding split_compress
compress-last c [] after h = refl
compress-last c (x ∷ t) after h = ground (arith, compress-last c t false h.1)

pub compress-joined :
    (c : ℕ) (t : Text) (ts : List Text) (after : Bool)
    → All (λ s. (s ≢ []) × Lacks c s) (t ∷ ts)
    → split_compress c after (joined c t ts) ≡ t ∷ ts
compress-joined c t [] after h = compress-last c t after h.0.1
compress-joined c t (u ∷ ts) after h =
    compress-word c t (joined c u ts) after h.0.0 h.0.1
    ∙ ap (◌∷◌ t) (compress-joined c u ts true h.1)

drop_end-last :
    (test : ℕ → Bool) (s : Text) (d : ℕ)
    → test d ≡ false
    → drop_end test (s ++ d ∷ []) ≡ s ++ d ∷ []
unfolding drop_end equal
drop_end-last test [] d h = rw h refl
drop_end-last test (c ∷ []) d h = rw h refl
drop_end-last test (c ∷ x ∷ s) d h = rw (drop_end-last test (x ∷ s) d h) refl

pub trim_solid :
    (c d : ℕ) (s : Text) → IsSolid c → IsSolid d → trim (c ∷ (s ++ d ∷ [])) ≡ c ∷ (s ++ d ∷ [])
unfolding trim
trim_solid c d s h k = rw h (drop_end-last is_space (c ∷ s) d k)

pub trim_one : (c : ℕ) → IsSolid c → trim (c ∷ []) ≡ c ∷ []
unfolding trim
trim_one c h = rw (h, h)

pub trim_space : (c : ℕ) (s : Text) → is_space c ≡ true → trim (c ∷ s) ≡ trim s
unfolding trim
trim_space c s h = rw h

pub trim_left_solid : (c : ℕ) (s : Text) → IsSolid c → trim_left (c ∷ s) ≡ c ∷ s
unfolding trim_left
trim_left_solid c s h = rw h

pub trim_left_space : (c : ℕ) (s : Text) → is_space c ≡ true → trim_left (c ∷ s) ≡ trim_left s
unfolding trim_left
trim_left_space c s h = rw h

quotes_end : (s : Text) → Lacks 34 s → drop_end is_quote (s ++ 34 ∷ []) ≡ s
unfolding drop_end equal is_quote
quotes_end [] h = refl
quotes_end (c ∷ []) h = ground arith
quotes_end (c ∷ x ∷ s) h = rw (quotes_end (x ∷ s) h.1) refl

pub trim_quotes_quoted : (s : Text) → Lacks 34 s → trim_quotes (34 ∷ (s ++ 34 ∷ [])) ≡ s
unfolding trim_quotes
trim_quotes_quoted [] h = refl
trim_quotes_quoted (c ∷ s) h = rw (kept c h.0) (quotes_end (c ∷ s) h)
  where
    kept : (x : ℕ) → x ≢ 34 → (x == 34) ≡ false
    kept x n = ground arith

pub trim_nil : trim [] ≡ []
unfolding trim
trim_nil = refl

pub trim_left_nil : trim_left [] ≡ []
unfolding trim_left
trim_left_nil = refl

abbrev pub ascii_boost : Boost
ascii_boost = record {
  trim = trim;
  trim_left = trim_left;
  iequals = λ a b. equal (map to_upper a) (map to_upper b);
  split_spaces = split_compress b' ' false;
  split_semicolons = split b';';
  trim_quotes = trim_quotes;
  trim_solid = trim_solid;
  trim_one = trim_one;
  trim_nil = trim_nil;
  trim_space = trim_space;
  trim_left_nil = trim_left_nil;
  trim_left_solid = trim_left_solid;
  trim_left_space = trim_left_space;
  trim_quotes_quoted = trim_quotes_quoted;
  iequals_fold = λ a b. refl;
  split_spaces_joined = λ t ts h. compress-joined b' ' t ts false h;
  split_semicolons_joined = split-joined b';';
}
