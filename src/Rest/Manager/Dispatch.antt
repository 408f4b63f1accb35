-- ===== src/Rest/Manager/Dispatch.antt =====
-- webcc/rest_service_manager.cc: which service a URL is sent to.
use devops_workshop.Rest.Manager.{
  Regex, ServiceItem, plain, pattern_, with_regex, add_service, item_match, matched, first_of_two,
  get_service,
}
use devops_workshop.Prelude.{
  ◌≡◌, ◌↔◌, refl, ap, ◌∙◌, Bool, true, false, not, Option, none, some, List, [], ◌∷◌, ◌++◌,
  if◌then◌else◌,
}
use devops_workshop.Bytes.{Text, equal}

module _ (regex : Regex) (S : Type 0) where
  abbrev pub compiled_match : S → Text → Option regex.Compiled → Option (S × List Text)
  compiled_match service url none = none
  compiled_match service url (some r) = matched regex S service (regex.regex_match r url)

  get_service-append :
      (url : Text) (items : List (ServiceItem regex S)) (item : ServiceItem regex S)
      → get_service regex S url (items ++ item ∷ [])
        ≡ first_of_two regex S (get_service regex S url items) (item_match regex S item url)
  unfolding get_service
  get_service-append url [] item = last (item_match regex S item url)
    where
      last : (o : Option (S × List Text)) → first_of_two regex S o none ≡ o
      last none = refl
      last (some m) = refl
  get_service-append url (i ∷ items) item =
      ap (first_of_two regex S (item_match regex S i url)) (get_service-append url items item)
      ∙ regroup (item_match regex S i url) (get_service regex S url items)
          (item_match regex S item url)
    where
      regroup :
          (a b c : Option (S × List Text))
          → first_of_two regex S a (first_of_two regex S b c)
            ≡ first_of_two regex S (first_of_two regex S a b) c
      regroup none b c = refl
      regroup (some m) b c = refl

  -- what a binding contributes to the search for a URL
  abbrev pub bound_match : S → Text → Bool → Text → Option (S × List Text)
  bound_match service bound is_regex url =
      if not is_regex
      then (if equal bound url then some (service, []) else none)
      else compiled_match service url (regex.compile bound)

  -- A binding is consulted last: a URL goes to the service that it went to before, also if that was
  -- bound to the same URL, and only if there was none to the service that is added, if its text is equal
  -- or its expression matches. A binding whose expression is not valid takes no URL.
  pub get_service-add_service :
      (service : S) (bound : Text) (is_regex : Bool) (items : List (ServiceItem regex S))
      (url : Text)
      → get_service regex S url (add_service regex S service bound is_regex items).0
        ≡ first_of_two regex S
            (get_service regex S url items)
            (bound_match service bound is_regex url)
  unfolding add_service item_match
  get_service-add_service service bound false items url =
      get_service-append url items (plain service bound)
  get_service-add_service service bound true items url = added (regex.compile bound)
    where
      keeps : (o : Option (S × List Text)) → o ≡ first_of_two regex S o none
      keeps none = refl
      keeps (some m) = refl

      added :
          (o : Option regex.Compiled)
          → get_service regex S url (with_regex regex S service bound o items).0
            ≡ first_of_two regex S (get_service regex S url items) (compiled_match service url o)
      added none = keeps (get_service regex S url items)
      added (some r) = get_service-append url items (pattern_ service bound r)

  -- Binding fails exactly for an expression that is not valid.
  pub add_service-refused :
      (service : S) (bound : Text) (is_regex : Bool) (items : List (ServiceItem regex S))
      → ((add_service regex S service bound is_regex items).1 ≡ false)
        ↔ ((is_regex ≡ true) × (regex.compile bound ≡ none))
  unfolding add_service
  add_service-refused service bound false items = ((λ e. cc), (λ e. cc (e.0)))
  add_service-refused service bound true items = go (regex.compile bound) refl
    where
      go :
          (o : Option regex.Compiled)
          → regex.compile bound ≡ o
          → ((with_regex regex S service bound o items).1 ≡ false)
            ↔ (◌≡◌ {A = Bool} true true × (regex.compile bound ≡ none))
      go none e = ((λ _. (refl, e)), (λ _. refl))
      go (some r) e = ((λ x. cc), (λ x. cc (e, x.1)))
