-- ===== src/Client/Key.antt =====
-- webcc/client_pool.h: `ClientPool::Key` and its two comparisons.
use mathlib.Core.Path.{subst}
use devops_workshop.Url.Address.{Url}
use devops_workshop.Prelude.{
  ◌≡◌, ◌↔◌, refl, Bool, true, false, not, ◌&&◌, ◌||◌, [], ◌∷◌, arith, ltb, ◌==◌, if◌then◌else◌,
}
use devops_workshop.Bytes.{Text, equal}

pub record Key : Type 0 where
  pub scheme : Text
  pub host : Text
  pub port : Text

-- the constructor from a URL
abbrev pub key_of : Url → Key
key_of url = record { scheme = url.scheme; host = url.host; port = url.port }

-- `std::string::operator<`
unfoldable pub text_less : Text → Text → Bool
text_less a [] = false
text_less [] (y ∷ b) = true
text_less (x ∷ a) (y ∷ b) =
    let rest = text_less a b in if ltb x y then true else if x == y then rest else false

-- `operator==`
unfoldable pub same : Key → Key → Bool
unfolding equal
same a b = equal a.scheme b.scheme && equal a.host b.host && equal a.port b.port

-- `operator<`
unfoldable pub less : Key → Key → Bool
unfolding text_less
less a b =
    if text_less a.scheme b.scheme
    then true
    else if text_less a.host b.host
    then true
    else if text_less a.port b.port
    then true
    else false

text_less_total : (a b : Text) → text_less a b ≡ false → text_less b a ≡ false → a ≡ b
unfolding text_less
text_less_total [] [] e f = refl
text_less_total [] (y ∷ b) e f = ground arith
text_less_total (x ∷ a) [] e f = ground arith
text_less_total (x ∷ a) (y ∷ b) e f = ground (arith, text_less_total a b)

text_less_asymm : (a b : Text) → text_less a b ≡ true → text_less b a ≡ false
unfolding text_less
text_less_asymm a [] e = ground arith
text_less_asymm [] (y ∷ b) e = refl
text_less_asymm (x ∷ a) (y ∷ b) e = ground (arith, text_less_asymm a b)

none_of :
    (x y z : Bool)
    → (if x then true else if y then true else if z then true else false) ≡ false
    → (x ≡ false) × (y ≡ false) × (z ≡ false)
none_of true y z h = cc
none_of false true z h = cc
none_of false false true h = cc
none_of false false false h = (refl, refl, refl)

less_total : (a b : Key) → less a b ≡ false → less b a ≡ false → a ≡ b
unfolding less
less_total a b e f =
    let (s, h, p) = none_of (text_less a.scheme b.scheme) (text_less a.host b.host) _ e in
    let (t, i, q) = none_of (text_less b.scheme a.scheme) (text_less b.host a.host) _ f in
    λ i'. record {
      scheme = text_less_total a.scheme b.scheme s t i';
      host = text_less_total a.host b.host h i i';
      port = text_less_total a.port b.port p q i';
    }

-- `operator<` is no order: of two keys with one scheme below the other, and the hosts the other way
-- round, each is below the other.
pub less_both :
    (a b : Key)
    → text_less a.scheme b.scheme ≡ true
    → text_less b.host a.host ≡ true
    → (less a b ≡ true) × (less b a ≡ true)
unfolding less
less_both a b e f = (rw e refl, rw (text_less_asymm a.scheme b.scheme e, f) refl)

text_less_irrefl : (a : Text) → text_less a a ≡ false
unfolding text_less
text_less_irrefl [] = refl
text_less_irrefl (x ∷ a) = ground (arith, text_less_irrefl a)

-- what `std::map` takes for one key
unfoldable pub equivalent : Key → Key → Bool
unfolding less
equivalent a b = not (less a b || less b a)

pub equivalent_refl : (a : Key) → equivalent a a ≡ true
unfolding equivalent less
equivalent_refl a =
    rw (text_less_irrefl a.scheme, text_less_irrefl a.host, text_less_irrefl a.port) refl

both_false : (x y : Bool) → not (x || y) ≡ true → (x ≡ false) × (y ≡ false)
both_false false false h = (refl, refl)
both_false false true h = cc
both_false true y h = cc

-- What `operator<` does not tell apart is equal, and what is equal it does not tell apart; so a search by
-- `operator<` never takes the connection to another server.
pub equivalent_iff : (a b : Key) → (equivalent a b ≡ true) ↔ (a ≡ b)
unfolding equivalent
equivalent_iff a b = (
  (λ h. let (e, f) = both_false (less a b) (less b a) h in less_total a b e f),
  (λ e. subst (λ k. equivalent a k ≡ true) e (equivalent_refl a)),
)
