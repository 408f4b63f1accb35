-- ===== src/Url/Query/Keys.antt =====
-- webcc/url.cc: the laws of lookup, and that a `UrlQuery` never holds a key twice.
use devops_workshop.Url.Query.{
  Parameter, Parameters, find, is_some, has, add, remove, add_pair, add_if_split, split_key_value,
  parse_loop, parse,
}
use devops_workshop.Prelude.{
  ◌≡◌, inl, inr, refl, ap, false, Option, none, some, [], ◌∷◌, ◌++◌, arith, ◌==◌, if◌then◌else◌,
  Bool-cases,
}
use devops_workshop.Bytes.{Text, equal, equal_iff}

-- No key stands twice.
abbrev pub NodupKeys : Parameters → Type 0
NodupKeys [] = Unit
NodupKeys (p ∷ ps) = (has p.0 ps ≡ false) × NodupKeys ps

pub find-append_one :
    (key k v : Text) (ps : Parameters)
    → find key (ps ++ (k, v) ∷ [])
      ≡ (if has key ps then find key ps else if equal k key then some v else none)
unfolding find has
find-append_one key k v [] = refl
find-append_one key k v ((j, w) ∷ ps) = ground (arith, find-append_one key k v ps)

append_one_new :
    (key k v : Text) (ps : Parameters)
    → has k ps ≡ false
    → (if has key ps then find key ps else if equal k key then some v else none)
      ≡ (if equal k key then some v else find key ps)
unfolding has
append_one_new key k v ps new = ground (arith, equal_iff k key, ap (λ j. is_some (find j ps)))

-- The first value given for a key stays; a key that is new gets its value; other keys keep theirs.
pub find-add :
    (key k v : Text) (ps : Parameters)
    → find key (add k v ps)
      ≡ (if has k ps then find key ps else if equal k key then some v else find key ps)
unfolding add
find-add key k v ps = elim (Bool-cases (has k ps)) [
  | inl old ↦ rw old
  | inr new ↦ rw (new, find-append_one) (append_one_new key k v ps new)
]

NodupKeys-append :
    (k v : Text) (ps : Parameters) → has k ps ≡ false → NodupKeys ps → NodupKeys (ps ++ (k, v) ∷ [])
unfolding has find
NodupKeys-append k v [] h n = (refl, tt)
NodupKeys-append k v ((j, w) ∷ ps) h n =
    ground (arith, find-append_one j k v ps, NodupKeys-append k v ps, equal_iff j k, equal_iff k j)

pub add-NodupKeys : (k v : Text) (ps : Parameters) → NodupKeys ps → NodupKeys (add k v ps)
unfolding add
add-NodupKeys k v ps n = elim (Bool-cases (has k ps)) [
  | inl old ↦ rw old n
  | inr new ↦ rw new (NodupKeys-append k v ps new n)
]

add_if_split-NodupKeys :
    (o : Option Parameter) (ps : Parameters) → NodupKeys ps → NodupKeys (add_if_split o ps)
add_if_split-NodupKeys none ps n = n
add_if_split-NodupKeys (some (k, v)) ps n = add-NodupKeys k v ps n

add_pair-NodupKeys : (kv : Text) (ps : Parameters) → NodupKeys ps → NodupKeys (add_pair kv ps)
unfolding add_pair
add_pair-NodupKeys kv ps n = add_if_split-NodupKeys (split_key_value kv) ps n

parse_loop-NodupKeys :
    (kv str : Text) (ps : Parameters) → NodupKeys ps → NodupKeys (parse_loop kv str ps)
unfolding parse_loop
parse_loop-NodupKeys kv [] ps n = add_pair-NodupKeys kv ps n
parse_loop-NodupKeys kv (c ∷ str) ps n = elim (Bool-cases (c == b'&')) [
  | inl sep ↦ rw sep (parse_loop-NodupKeys [] str (add_pair kv ps) (add_pair-NodupKeys kv ps n))
  | inr other ↦ rw other (parse_loop-NodupKeys (kv ++ c ∷ []) str ps n)
]

-- Whatever string a `UrlQuery` is built from, no key stands in it twice.
pub parse-NodupKeys : (str : Text) → NodupKeys (parse str)
unfolding parse
parse-NodupKeys [] = tt
parse-NodupKeys (c ∷ str) = parse_loop-NodupKeys [] (c ∷ str) [] tt

-- Where no key stands twice, a removed key is gone, and the others keep their values.
pub find-remove :
    (key k : Text) (ps : Parameters)
    → NodupKeys ps
    → find key (remove k ps) ≡ (if equal k key then none else find key ps)
unfolding find remove has
find-remove key k [] n = ground arith
find-remove key k ((j, w) ∷ ps) n =
    ground (arith, find-remove key k ps n.1, equal_iff j k, equal_iff k key, equal_iff j key)
