-- ===== src/Server/Pool.antt =====
-- webcc/connection_pool.h and connection_pool.cc: `ConnectionPool`. A connection is its number, and
-- what `std::set` holds is a list without repetitions.
use devops_workshop.Server.Connection.{Connection, close_socket}
use devops_workshop.Prelude.{
  ℕ, ◌≡◌, refl, Bool, false, ◌||◌, List, [], ◌∷◌, arith, ◌==◌, if◌then◌else◌,
}

unfoldable pub contains : ℕ → List ℕ → Bool
contains c [] = false
contains c (d ∷ ds) = d == c || contains c ds

-- `insert`
unfoldable pub insert : ℕ → List ℕ → List ℕ
unfolding contains
insert c ds = if contains c ds then ds else c ∷ ds

-- `erase`
unfoldable pub erase : ℕ → List ℕ → List ℕ
erase c [] = []
erase c (d ∷ ds) = let rest = erase c ds in if d == c then rest else d ∷ rest

-- a table of connections with one entry replaced
abbrev pub update {ℓ} : {A : Type ℓ} → ℕ → A → (ℕ → A) → ℕ → A
update c a f d = if d == c then a else f d

-- the loop of `CloseAll`
unfoldable pub close_each : List ℕ → (ℕ → Connection) → ℕ → Connection
close_each [] f = f
close_each (c ∷ cs) f = close_each cs (update c (close_socket (f c)) f)

pub contains-insert : (c d : ℕ) (ds : List ℕ) → contains d (insert c ds) ≡ (c == d || contains d ds)
unfolding insert contains
contains-insert c d ds = ground arith

pub contains-erase :
    (c d : ℕ) (ds : List ℕ) → contains d (erase c ds) ≡ (if d == c then false else contains d ds)
unfolding erase contains
contains-erase c d [] = ground arith
contains-erase c d (x ∷ ds) = ground (arith, contains-erase c d ds)

-- Every connection of the pool is closed, and is else as it was; so are the others.
pub close_each_lem :
    (cs : List ℕ) (f : ℕ → Connection) (d : ℕ)
    → close_each cs f d ≡ record (f d) { is_open = if contains d cs then false else (f d).is_open }
unfolding close_each contains
close_each_lem [] f d = refl
close_each_lem (c ∷ cs) f d = ground (arith, close_each_lem cs (update c (close_socket (f c)) f) d)
