-- ===== src/Numbers.antt =====
-- The conversions of the C++ standard library between numbers and text that webcc uses:
-- `std::stoul` with base 10 or 16 on a 64-bit platform, and `std::to_string`.
use devops_workshop.Boost.{is_space}
use devops_workshop.Prelude.{
  ℕ, zero, suc, ◌+◌, ◌-◌, ◌*◌, ◌/◌, ◌%◌, ◌^◌, ◌≤◌, ◌<◌, ◌≡◌, inl, inr, refl, ◌∙◌, Bool, true, false,
  ◌&&◌, ◌||◌, Option, none, some, [], ◌∷◌, arith, ltb, leb, ◌==◌, if◌then◌else◌, Bool-cases,
}
use devops_workshop.Bytes.{Text}

-- the value of a digit in some base up to 36
abbrev pub digit_value : ℕ → ℕ
digit_value c =
    if leb b'0' c && leb c b'9'
    then c - b'0'
    else if leb b'A' c && leb c b'Z'
    then c - 55
    else if leb b'a' c && leb c b'z'
    then c - 87
    else 99

-- the number that the leading digits denote, onto `n`
unfoldable pub read_digits : ℕ → ℕ → Text → ℕ
read_digits base n [] = n
read_digits base n (c ∷ s) =
    let more = read_digits base (n * base + digit_value c) s in
    if ltb (digit_value c) base then more else n

-- a value beyond `unsigned long` is `std::out_of_range`
abbrev pub in_range : Bool → ℕ → Option ℕ
in_range negative n =
    if ltb n (2 ^ 64) then some (if negative then (2 ^ 64 - n) % 2 ^ 64 else n) else none

-- text that begins with no digit is `std::invalid_argument`
unfoldable pub read_number : ℕ → Bool → Text → Option ℕ
unfolding read_digits
read_number base negative [] = none
read_number base negative (c ∷ s) =
    if ltb (digit_value c) base then in_range negative (read_digits base 0 (c ∷ s)) else none

-- "0x" before a hexadecimal digit is skipped in base 16
unfoldable pub skip_prefix : ℕ → Text → Text
skip_prefix base (z ∷ x ∷ d ∷ s) =
    if base == 16 && z == b'0' && (x == b'x' || x == b'X') && ltb (digit_value d) 16
    then d ∷ s
    else z ∷ x ∷ d ∷ s
skip_prefix base s = s

unfoldable pub read_signed : ℕ → Text → Option ℕ
unfolding read_number skip_prefix
read_signed base [] = none
read_signed base (c ∷ s) =
    if c == b'-'
    then read_number base true (skip_prefix base s)
    else if c == b'+'
    then read_number base false (skip_prefix base s)
    else read_number base false (skip_prefix base (c ∷ s))

-- `std::stoul(str, 0, base)`; `none` is an exception
unfoldable pub stoul : ℕ → Text → Option ℕ
unfolding read_signed
stoul base [] = none
stoul base (c ∷ s) =
    let rest = stoul base s in if is_space c then rest else read_signed base (c ∷ s)

-- `int`; `negsuc n` is -(n + 1)
pub data ℤ : Type 0 where
  pos : ℕ → ℤ
  negsuc : ℕ → ℤ

abbrev pub negate : ℕ → ℤ
negate zero = pos 0
negate (suc n) = negsuc n

-- a value beyond `int`, of 32 bits, is `std::out_of_range`
abbrev pub in_int_range : Bool → ℕ → Option ℤ
in_int_range true n = if leb n (2 ^ 31) then some (negate n) else none
in_int_range false n = if ltb n (2 ^ 31) then some (pos n) else none

unfoldable pub read_int : Bool → Text → Option ℤ
unfolding read_digits
read_int negative [] = none
read_int negative (c ∷ s) =
    if ltb (digit_value c) 10 then in_int_range negative (read_digits 10 0 (c ∷ s)) else none

-- `std::stoi(str)`; `none` is an exception
unfoldable pub stoi : Text → Option ℤ
unfolding read_int
stoi [] = none
stoi (c ∷ s) =
    let rest = stoi s in
    if is_space c
    then rest
    else if c == b'-'
    then read_int true s
    else if c == b'+'
    then read_int false s
    else read_int false (c ∷ s)

-- digits of `n`, in front of `later`; the fuel is above `n`
unfoldable pub decimal_loop : ℕ → ℕ → Text → Text
decimal_loop zero n later = later
decimal_loop (suc fuel) n later =
    let more = decimal_loop fuel (n / 10) ((b'0' + n % 10) ∷ later) in
    if ltb n 10 then (b'0' + n) ∷ later else more

-- `std::to_string`
unfoldable pub to_string : ℕ → Text
unfolding decimal_loop
to_string n = decimal_loop (suc n) n []

read_digits-decimal_loop :
    (fuel n : ℕ) (later : Text)
    → n < fuel
    → read_digits 10 0 (decimal_loop fuel n later) ≡ read_digits 10 n later
unfolding read_digits decimal_loop
read_digits-decimal_loop zero n later h = absurd (omega arith)
read_digits-decimal_loop (suc fuel) n later h = elim (Bool-cases (ltb n 10)) [
  | inl small ↦ rw small (ground arith)
  | inr large ↦ rw large (
      read_digits-decimal_loop fuel (n / 10) ((b'0' + n % 10) ∷ later) (ground arith)
      ∙ ground arith)
]

-- The text begins with a digit.
abbrev pub StartsWithDigit : Text → Type 0
StartsWithDigit [] = ⊥
StartsWithDigit (c ∷ s) = (48 ≤ c) × (c ≤ 57)

decimal_loop-StartsWithDigit :
    (fuel n : ℕ) (later : Text) → n < fuel → StartsWithDigit (decimal_loop fuel n later)
unfolding decimal_loop
decimal_loop-StartsWithDigit zero n later h = absurd (omega arith)
decimal_loop-StartsWithDigit (suc fuel) n later h = elim (Bool-cases (ltb n 10)) [
  | inl small ↦ rw small (ground arith)
  | inr large ↦
      rw large (decimal_loop-StartsWithDigit fuel (n / 10) ((b'0' + n % 10) ∷ later) (ground arith))
]

skip_prefix-ten : (s : Text) → skip_prefix 10 s ≡ s
unfolding skip_prefix
skip_prefix-ten [] = refl
skip_prefix-ten (z ∷ []) = refl
skip_prefix-ten (z ∷ x ∷ []) = refl
skip_prefix-ten (z ∷ x ∷ d ∷ s) = refl

stoul-digits : (s : Text) → StartsWithDigit s → stoul 10 s ≡ in_range false (read_digits 10 0 s)
unfolding stoul
stoul-digits [] h = absurd h
stoul-digits (c ∷ s) h = rw (skip_prefix-ten (c ∷ s)) (ground arith)

-- A `std::size_t` that is written by `to_string` is read back by `stoul`.
pub stoul-to_string : (n : ℕ) → n < 2 ^ 64 → stoul 10 (to_string n) ≡ some n
unfolding to_string
stoul-to_string n h =
    stoul-digits (decimal_loop (suc n) n [])
      (decimal_loop-StartsWithDigit (suc n) n [] (omega arith))
    ∙ rw (read_digits-decimal_loop (suc n) n [] (omega arith)) (unfold read_digits in ground arith)
