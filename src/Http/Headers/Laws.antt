-- ===== src/Http/Headers/Laws.antt =====
-- webcc/common.cc: a field is read back under every spelling of its name, and no name stands twice.
use devops_workshop.Boost.{Boost, iequals_left, iequals_comm}
use devops_workshop.Http.Headers.{Headers, find, set, has}
use devops_workshop.Prelude.{◌+◌, ◌≡◌, refl, false, some, [], ◌∷◌, arith, if◌then◌else◌, length}
use devops_workshop.Bytes.{Text}

module _ (boost : Boost) where
  -- What `Set` writes is read back under every spelling of the name, and no other field changes.
  pub find-set :
      (j k v : Text) (hs : Headers)
      → find boost j (set boost k v hs) ≡ (if boost.iequals k j then some v else find boost j hs)
  unfolding find set
  find-set j k v [] = refl
  find-set j k v ((i, w) ∷ hs) = ground (
    arith,
    find-set j k v hs,
    iequals_left boost i k j,
    iequals_left boost k j i,
    iequals_comm boost i k,
    iequals_comm boost i j,
  )

  -- No two fields have the same name but for case.
  abbrev pub NodupNames : Headers → Type 0
  NodupNames [] = Unit
  NodupNames (h ∷ hs) = (has boost h.0 hs ≡ false) × NodupNames hs

  -- `Set` keeps the names of the fields distinct.
  pub set-NodupNames : (k v : Text) (hs : Headers) → NodupNames hs → NodupNames (set boost k v hs)
  unfolding set has find
  set-NodupNames k v [] n = (refl, tt)
  set-NodupNames k v ((i, w) ∷ hs) n =
      ground (arith, find-set i k v hs, set-NodupNames k v hs n.1, iequals_comm boost i k)

  -- `Set` adds one field where the name is new, and none where it is there.
  pub length-set :
      (k v : Text) (hs : Headers)
      → length (set boost k v hs) ≡ length hs + (if has boost k hs then 0 else 1)
  unfolding set has find
  length-set k v [] = refl
  length-set k v ((i, w) ∷ hs) = ground (arith, length-set k v hs)
