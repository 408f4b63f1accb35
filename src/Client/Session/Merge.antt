-- ===== src/Client/Session/Merge.antt =====
-- webcc/client_session.cc: the headers of a session, and those of the request.
use devops_workshop.Boost.{Boost, iequals_left, iequals_comm}
use devops_workshop.Http.Headers.{Headers, find, has}
use devops_workshop.Http.Headers.Laws.{find-set}
use devops_workshop.Http.Message.{Message, set_header}
use devops_workshop.Client.Session.{add_missing}
use devops_workshop.Prelude.{
  ◌≡◌, inl, inr, refl, sym, ◌∙◌, true, Option, none, some, [], ◌∷◌, if◌then◌else◌, Bool-cases,
  Option-cases,
}
use devops_workshop.Bytes.{Text}

-- a value, and another where there is none
abbrev pub or_else : Option Text → Option Text → Option Text
or_else none o = o
or_else (some v) o = some v

module _ (boost : Boost) where
  find-iequals :
      (i j : Text) (hs : Headers) → boost.iequals i j ≡ true → find boost i hs ≡ find boost j hs
  unfolding find
  find-iequals i j [] e = refl
  find-iequals i j ((k, v) ∷ hs) e =
      rw
        (
          iequals_comm boost k i,
          iequals_left boost i j k e,
          iequals_comm boost j k,
          find-iequals i j hs e,
        )
        refl

  -- one round of the loop, whatever is found: `o` under the name in question
  find-missing :
      (name i v : Text) (m : Message) (later : Option Text)
      → or_else
          (find boost name (if has boost i m.headers then m else set_header boost i v m).headers)
          later
        ≡ or_else (find boost name m.headers) (if boost.iequals i name then some v else later)
  unfolding has
  find-missing name i v m later = elim (Option-cases (find boost i m.headers)) [
    | inl n ↦ rw n (rw (find-set boost name i v m.headers) (absent n))
    | inr (w, e) ↦ rw e (present w e)
  ]
    where
      absent :
          find boost i m.headers ≡ none
          → or_else (if boost.iequals i name then some v else find boost name m.headers) later
            ≡ or_else (find boost name m.headers) (if boost.iequals i name then some v else later)
      absent n = elim (Bool-cases (boost.iequals i name)) [
        | inl s ↦ rw (s, sym (find-iequals i name m.headers s), n) refl
        | inr s ↦ rw s refl
      ]

      present :
          (w : Text)
          → find boost i m.headers ≡ some w
          → or_else (find boost name m.headers) later
            ≡ or_else (find boost name m.headers) (if boost.iequals i name then some v else later)
      present w e = elim (Bool-cases (boost.iequals i name)) [
        | inl s ↦ rw (s, sym (find-iequals i name m.headers s), e) refl
        | inr s ↦ rw s refl
      ]

  or_else-none : (o : Option Text) → or_else o none ≡ o
  or_else-none none = refl
  or_else-none (some v) = refl

  -- A header of the request is kept, and else that of the session is sent, under every spelling of its
  -- name.
  pub find-add_missing :
      (name : Text) (hs : Headers) (m : Message)
      → find boost name (add_missing boost hs m).headers
        ≡ or_else (find boost name m.headers) (find boost name hs)
  unfolding add_missing find
  find-add_missing name [] m = sym (or_else-none (find boost name m.headers))
  find-add_missing name ((i, v) ∷ hs) m =
      find-add_missing name hs (if has boost i m.headers then m else set_header boost i v m)
      ∙ find-missing name i v m (find boost name hs)
