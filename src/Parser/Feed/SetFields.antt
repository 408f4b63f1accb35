-- ===== src/Parser/Feed/SetFields.antt =====
-- webcc/common.cc and message.cc: `Headers::Set` keeps the fields readable.
use devops_workshop.Boost.{Boost, iequals_left, iequals_comm, iequals_refl}
use devops_workshop.Http.Content.{ContentType, content_type}
use devops_workshop.Http.Headers.{Headers, find, set, has}
use devops_workshop.Http.Headers.Laws.{NodupNames}
use devops_workshop.Parser.Feed.Expected.{IsField, announces, declared}
use devops_workshop.Prelude.{
  ℕ, ◌≡◌, inl, inr, refl, sym, ap, ◌∙◌, Bool, true, false, ◌||◌, [], ◌∷◌, arith, if◌then◌else◌, All,
  Bool-cases,
}
use devops_workshop.Bytes.{Text, codes}

abbrev type_name : Text
type_name = codes "Content-Type"

abbrev length_name : Text
length_name = codes "Content-Length"

or_true : (b : Bool) → b || true ≡ true
or_true true = refl
or_true false = refl

module _ (boost : Boost) where
  open boost use {iequals}

  -- Names that are equal but for case compare alike.
  alike : (i k w : Text) → iequals i k ≡ true → iequals i w ≡ true → iequals k w ≡ true
  alike i k w h e = sym (iequals_left boost i k w h) ∙ e

  -- a field under its old name with a new value
  renewed :
      (n : ℕ) (i k old v : Text)
      → iequals i k ≡ true
      → IsField boost n (i, old)
      → IsField boost n (k, v)
      → IsField boost n (i, v)
  renewed n i k old v h a b = record {
    name_line = a.name_line;
    value_line = b.value_line;
    name_colon = a.name_colon;
    name_trimmed = a.name_trimmed;
    value_trimmed = b.value_trimmed;
    length_is = λ e. b.length_is (alike i k length_name h e);
    type_is = λ e. b.type_is (alike i k type_name h e);
    coding_is = λ e. b.coding_is (alike i k (codes "Transfer-Encoding") h e);
  }

  pub set-IsField :
      (n : ℕ) (k v : Text) (hs : Headers)
      → IsField boost n (k, v)
      → All (IsField boost n) hs
      → All (IsField boost n) (set boost k v hs)
  unfolding set
  set-IsField n k v [] b a = (b, tt)
  set-IsField n k v ((i, old) ∷ hs) b a = elim (Bool-cases (iequals i k)) [
    | inl h ↦ rw h (renewed n i k old v h a.0 b, a.1)
    | inr h ↦ rw h (a.0, set-IsField n k v hs b a.1)
  ]

  -- The length is known behind `SetContentLength`.
  pub announces-set :
      (v : Text) (hs : Headers) → announces boost (set boost length_name v hs) ≡ true
  unfolding set
  announces-set v [] = rw (iequals_refl boost length_name) refl
  announces-set v ((i, old) ∷ hs) = elim (Bool-cases (iequals i length_name)) [
    | inl h ↦ rw h (rw h refl)
    | inr h ↦ rw h (rw (announces-set v hs) (or_true (iequals i length_name)))
  ]

  declared-absent :
      (c : ContentType) (hs : Headers) → has boost type_name hs ≡ false → declared boost c hs ≡ c
  unfolding has find
  declared-absent c [] h = refl
  declared-absent c ((i, v) ∷ hs) h = elim (Bool-cases (iequals i type_name)) [
    | inl e ↦ cc (rw e at h)
    | inr e ↦ rw e (declared-absent c hs (rw e at h))
  ]

  has-alike :
      (i k : Text) (hs : Headers)
      → iequals i k ≡ true
      → has boost i hs ≡ false
      → has boost k hs ≡ false
  unfolding has find
  has-alike i k [] h e = refl
  has-alike i k ((j, v) ∷ hs) h e = ground (
    arith,
    iequals_left boost i k j h,
    iequals_comm boost j i,
    iequals_comm boost j k,
    has-alike i k hs h,
  )

  set-same :
      (i k old v : Text) (hs : Headers)
      → iequals i k ≡ true
      → set boost k v ((i, old) ∷ hs) ≡ (i, v) ∷ hs
  unfolding set
  set-same i k old v hs h = rw h refl

  set-next :
      (i k old v : Text) (hs : Headers)
      → iequals i k ≡ false
      → set boost k v ((i, old) ∷ hs) ≡ (i, old) ∷ set boost k v hs
  unfolding set
  set-next i k old v hs h = rw h refl

  -- The content type that is set is the one that is declared, where no name stands twice.
  pub declared-set :
      (c : ContentType) (v : Text) (hs : Headers)
      → NodupNames boost hs
      → declared boost c (set boost type_name v hs) ≡ content_type boost v
  unfolding set
  declared-set c v [] d = rw (iequals_refl boost type_name) refl
  declared-set c v ((i, old) ∷ hs) d = elim (Bool-cases (iequals i type_name)) [
    | inl h ↦
        ap (declared boost c) (set-same i type_name old v hs h)
        ∙ rw h (declared-absent (content_type boost v) hs (has-alike i type_name hs h d.0))
    | inr h ↦
        ap (declared boost c) (set-next i type_name old v hs h)
        ∙ declared-set (if iequals i type_name then content_type boost old else c) v hs d.1
  ]

  pub declared-set_other :
      (c : ContentType) (k v : Text) (hs : Headers)
      → iequals k type_name ≡ false
      → declared boost c (set boost k v hs) ≡ declared boost c hs
  unfolding set
  declared-set_other c k v [] e = rw e refl
  declared-set_other c k v ((i, old) ∷ hs) e = elim (Bool-cases (iequals i k)) [
    | inl h ↦
        ap (declared boost c) (set-same i k old v hs h)
        ∙ rw (iequals_left boost i k type_name h ∙ e) refl
    | inr h ↦
        ap (declared boost c) (set-next i k old v hs h)
        ∙ declared-set_other (if iequals i type_name then content_type boost old else c) k v hs e
  ]

  pub announces-set_other :
      (k v : Text) (hs : Headers)
      → iequals k length_name ≡ false
      → announces boost (set boost k v hs) ≡ announces boost hs
  unfolding set
  announces-set_other k v [] e = rw e refl
  announces-set_other k v ((i, old) ∷ hs) e = elim (Bool-cases (iequals i k)) [
    | inl h ↦ ap (announces boost) (set-same i k old v hs h)
    | inr h ↦
        ap (announces boost) (set-next i k old v hs h)
        ∙ ap (λ b. iequals i length_name || b) (announces-set_other k v hs e)
  ]
