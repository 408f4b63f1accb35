-- ===== src/Client/Pool.antt =====
-- webcc/client_pool.h and client_pool.cc: `ClientPool`. What `std::map` holds is a list of entries, of
-- which no two have equivalent keys.
use devops_workshop.Client.{Client, close}
use devops_workshop.Client.Key.{Key, equivalent, equivalent_iff, equivalent_refl}
use devops_workshop.Prelude.{
  ◌≡◌, inl, inr, refl, sym, ap, ◌∙◌, Bool, true, false, Option, none, some, List, [], ◌∷◌, map,
  if◌then◌else◌, All, Bool-cases, arith,
}

abbrev pub Pool : Type 0
Pool = List (Key × Client)

-- `Get`
unfoldable pub get : Key → Pool → Option Client
get key [] = none
get key ((k, c) ∷ pool) = let rest = get key pool in if equivalent k key then some c else rest

-- `Add`
unfoldable pub add : Key → Client → Pool → Pool
add key client [] = (key, client) ∷ []
add key client ((k, c) ∷ pool) =
    let rest = add key client pool in if equivalent k key then (k, client) ∷ pool else (k, c) ∷ rest

-- `Remove`
unfoldable pub remove : Key → Pool → Pool
remove key [] = []
remove key ((k, c) ∷ pool) =
    let rest = remove key pool in if equivalent k key then pool else (k, c) ∷ rest

-- the destructor: every client closes its socket
abbrev pub close_all : Pool → Pool
close_all pool = map (λ (k, c). (k, close c)) pool

abbrev closed_of : Bool → Option Client → Bool
closed_of d none = d
closed_of d (some c) = c.closed

-- Every client of the pool has its socket open.
abbrev pub AllOpen : Pool → Type 0
AllOpen pool = All (λ (k, c). c.closed ≡ false) pool

-- No two entries have one key.
abbrev pub NodupKeys : Pool → Type 0
NodupKeys [] = Unit
NodupKeys ((k, c) ∷ pool) = (get k pool ≡ none) × NodupKeys pool

pub get-AllOpen :
    (key : Key) (pool : Pool) (c : Client) → AllOpen pool → get key pool ≡ some c → c.closed ≡ false
unfolding get
get-AllOpen key [] c h e = cc
get-AllOpen key ((k, d) ∷ pool) c h e = elim (Bool-cases (equivalent k key)) [
  | inl s ↦ sym (ap (closed_of true) (rw s at e)) ∙ h.0
  | inr n ↦ get-AllOpen key pool c h.1 (rw n at e)
]

pub add-AllOpen :
    (key : Key) (c : Client) (pool : Pool)
    → c.closed ≡ false
    → AllOpen pool
    → AllOpen (add key c pool)
unfolding add
add-AllOpen key c [] o h = (o, tt)
add-AllOpen key c ((k, d) ∷ pool) o h = elim (Bool-cases (equivalent k key)) [
  | inl s ↦ rw s (o, h.1)
  | inr n ↦ rw n (h.0, add-AllOpen key c pool o h.1)
]

pub remove-AllOpen : (key : Key) (pool : Pool) → AllOpen pool → AllOpen (remove key pool)
unfolding remove
remove-AllOpen key [] h = tt
remove-AllOpen key ((k, d) ∷ pool) h = elim (Bool-cases (equivalent k key)) [
  | inl s ↦ rw s h.1
  | inr n ↦ rw n (h.0, remove-AllOpen key pool h.1)
]

apart : (i j k : Key) → equivalent i j ≡ true → equivalent i k ≡ false → equivalent k j ≡ false
apart i j k e n = elim (Bool-cases (equivalent k j)) [
  | inl s ↦ cc (
    n,
    equivalent_refl i,
    ap (equivalent i) ((equivalent_iff i j).0 e ∙ sym ((equivalent_iff k j).0 s)),
  )
  | inr m ↦ m
]

-- What `Add` puts into the pool is what `Get` finds under its key, and all else is found as before.
pub get-add :
    (j k : Key) (c : Client) (pool : Pool)
    → get j (add k c pool) ≡ (if equivalent k j then some c else get j pool)
unfolding get add
get-add j k c [] = refl
get-add j k c ((i, d) ∷ pool) = elim (Bool-cases (equivalent i k)) [
  | inl s ↦ rw s (rw ((equivalent_iff i k).0 s) (ground arith))
  | inr n ↦ rw n (
      rw (get-add j k c pool) (elim (Bool-cases (equivalent i j)) [
        | inl s ↦ rw (s, apart i j k s n) refl
        | inr m ↦ rw m refl
      ]))
]

-- What `Remove` takes out of the pool is not found again.
pub get-remove : (key : Key) (pool : Pool) → NodupKeys pool → get key (remove key pool) ≡ none
unfolding get remove
get-remove key [] h = refl
get-remove key ((i, d) ∷ pool) h = elim (Bool-cases (equivalent i key)) [
  | inl s ↦ rw s (ap (λ k. get k pool) (sym ((equivalent_iff i key).0 s)) ∙ h.0)
  | inr n ↦ rw n (rw n (get-remove key pool h.1))
]
