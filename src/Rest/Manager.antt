-- ===== src/Rest/Manager.antt =====
-- webcc/rest_service_manager.h and rest_service_manager.cc: `RestServiceManager`, over any type of
-- services. `std::regex` is a parameter: its compiled form, its constructor and `regex_match`.
pub mod Dispatch
use devops_workshop.Prelude.{
  zero, suc, Bool, true, false, not, Option, none, some, List, [], ◌∷◌, ◌++◌, if◌then◌else◌,
}
use devops_workshop.Bytes.{Text, equal, cut, strip}

-- `std::regex` with the flags of the source: `compile` gives `none` for `std::regex_error`, and
-- `regex_match` gives the sub-matches behind the first, which is the whole text.
pub record Regex : Type 1 where
  pub Compiled : Type 0
  pub compile : Text → Option Compiled
  pub regex_match : Compiled → Text → Option (List Text)

module _ (regex : Regex) (S : Type 0) where
  open regex use {Compiled, compile, regex_match}

  -- `ServiceItem`: one that is a regular expression has it compiled
  pub data ServiceItem : Type 0 where
    plain : S → Text → ServiceItem
    pattern_ : S → Text → Compiled → ServiceItem

  abbrev pub with_regex : S → Text → Option Compiled → List ServiceItem → List ServiceItem × Bool
  with_regex service url none items = (items, false)
  with_regex service url (some r) items = (items ++ pattern_ service url r ∷ [], true)

  -- `AddService`: the items after it, and its result
  unfoldable pub add_service : S → Text → Bool → List ServiceItem → List ServiceItem × Bool
  add_service service url is_regex items =
      if not is_regex
      then (items ++ plain service url ∷ [], true)
      else with_regex service url (compile url) items

  abbrev pub matched : S → Option (List Text) → Option (S × List Text)
  matched service none = none
  matched service (some ms) = some (service, ms)

  -- whether one item takes a URL
  unfoldable pub item_match : ServiceItem → Text → Option (S × List Text)
  unfolding equal
  item_match (plain service item_url) url = if equal item_url url then some (service, []) else none
  item_match (pattern_ service item_url r) url = matched service (regex_match r url)

  abbrev pub first_of_two : Option (S × List Text) → Option (S × List Text) → Option (S × List Text)
  first_of_two (some m) rest = some m
  first_of_two none rest = rest

  -- `GetService`: the service and what is added to `matches`, or `none` for the null pointer
  unfoldable pub get_service : Text → List ServiceItem → Option (S × List Text)
  unfolding item_match
  get_service url [] = none
  get_service url (item ∷ items) = first_of_two (item_match item url) (get_service url items)
