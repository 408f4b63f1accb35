-- ===== src/Http/Headers.antt =====
-- webcc/common.h and common.cc: `Headers`, a list of fields whose names ignore case.
pub mod Laws
use devops_workshop.Boost.{Boost}
use devops_workshop.Prelude.{
  zero, suc, Bool, true, false, Option, none, some, List, [], ◌∷◌, if◌then◌else◌,
}
use devops_workshop.Bytes.{Text, equal, cut, strip}

abbrev pub Header : Type 0
Header = Text × Text

abbrev pub Headers : Type 0
Headers = List Header

abbrev or_empty : Option Text → Text
or_empty none = []
or_empty (some v) = v

abbrev is_some : Option Text → Bool
is_some none = false
is_some (some _) = true

module _ (boost : Boost) where
  -- `Find`, with the value found
  unfoldable pub find : Text → Headers → Option Text
  find key [] = none
  find key ((name, value) ∷ hs) = if boost.iequals name key then some value else find key hs

  -- `Set`, both overloads: the value of the field found is replaced, its name stays
  unfoldable pub set : Text → Text → Headers → Headers
  set key value [] = (key, value) ∷ []
  set key value ((name, old) ∷ hs) =
      if boost.iequals name key then (name, value) ∷ hs else (name, old) ∷ set key value hs

  -- `Has`
  unfoldable pub has : Text → Headers → Bool
  unfolding find
  has key hs = is_some (find key hs)

  -- `Get` by key, and its `existed` flag
  unfoldable pub get : Text → Headers → Text × Bool
  unfolding find
  get key hs = (or_empty (find key hs), is_some (find key hs))
