-- ===== src/Client/Builder/Fields.antt =====
-- webcc/request_builder.cc: the content of a request that is built, and its headers.
use devops_workshop.Boost.{Boost}
use devops_workshop.Numbers as Numbers
use devops_workshop.Http.Headers.{find, get}
use devops_workshop.Http.Headers.Laws.{find-set}
use devops_workshop.Http.Message.{
  Message, set_content, set_content_length, set_content_type, is_connection_keep_alive,
}
use devops_workshop.Client.Builder.{Builder, with_data, started, build}
use devops_workshop.Prelude.{
  ◌≡◌, ◌≢◌, inl, inr, refl, ◌∙◌, Bool, true, false, some, [], Bool-cases, length,
}
use devops_workshop.Bytes.{Text, codes, equal, equal_iff}

module _ (boost : Boost) where
  length_apart : boost.iequals (codes "Content-Length") (codes "Connection") ≡ false
  length_apart = boost.iequals_fold _ _ ∙ (unfold equal in refl)

  type_apart : boost.iequals (codes "Content-Type") (codes "Connection") ≡ false
  type_apart = boost.iequals_fold _ _ ∙ (unfold equal in refl)

  type_length_apart : boost.iequals (codes "Content-Type") (codes "Content-Length") ≡ false
  type_length_apart = boost.iequals_fold _ _ ∙ (unfold equal in refl)

  close_is_not : boost.iequals (codes "Close") (codes "Keep-Alive") ≡ false
  close_is_not = boost.iequals_fold _ _ ∙ (unfold equal in refl)

  connection_same : boost.iequals (codes "Connection") (codes "Connection") ≡ true
  connection_same = boost.iequals_fold _ _ ∙ (unfold equal in refl)

  length_same : boost.iequals (codes "Content-Length") (codes "Content-Length") ≡ true
  length_same = boost.iequals_fold _ _ ∙ (unfold equal in refl)

  -- the content and the headers that it changes
  with_data-Connection :
      (content : Text) (json : Bool) (m : Message)
      → find boost (codes "Connection") (with_data boost content json m).headers
        ≡ find boost (codes "Connection") m.headers
  unfolding with_data set_content set_content_length set_content_type equal
  with_data-Connection content true m = simp (find-set boost, length_apart, type_apart)
  with_data-Connection content false m = simp (find-set boost, length_apart)

  with_data-Content_Length :
      (content : Text) (json : Bool) (m : Message)
      → find boost (codes "Content-Length") (with_data boost content json m).headers
        ≡ some (Numbers.to_string (length content))
  unfolding with_data set_content set_content_length set_content_type equal
  with_data-Content_Length content true m = simp (find-set boost, type_length_apart, length_same)
  with_data-Content_Length content false m = simp (find-set boost, length_same)

  with_data-content :
      (content : Text) (json : Bool) (m : Message)
      → (with_data boost content json m).content ≡ content
  unfolding with_data set_content set_content_length set_content_type equal
  with_data-content content true m = refl
  with_data-content content false m = refl

  closes :
      (m : Message)
      → find boost (codes "Connection") m.headers ≡ some (codes "Close")
      → is_connection_keep_alive boost m ≡ false
  unfolding is_connection_keep_alive get
  closes m e = rw e (rw close_is_not refl)

  started-Connection :
      (b : Builder)
      → b.keep_alive ≡ false
      → find boost (codes "Connection") (started boost b).message.headers ≡ some (codes "Close")
  started-Connection b k = rw k (simp (find-set boost, connection_same))

  -- A request that is built for one use asks the server to close the connection, with content or
  -- without, whatever headers are given.
  pub build-keep_alive :
      (b : Builder)
      → b.keep_alive ≡ false
      → is_connection_keep_alive boost (build boost b).message ≡ false
  unfolding build
  build-keep_alive b k = closes (build boost b).message (elim (Bool-cases (equal b.data_ [])) [
    | inl e ↦ rw e (started-Connection b k)
    | inr e ↦
        rw e
          (with_data-Connection b.data_ b.json (started boost b).message ∙ started-Connection b k)
  ])

  -- Data that is not empty is the content of the request that is built, and Content-Length is its
  -- length, whatever headers are given.
  pub build-data :
      (b : Builder)
      → b.data_ ≢ []
      → ((build boost b).message.content ≡ b.data_)
        × (find boost (codes "Content-Length") (build boost b).message.headers
            ≡ some (Numbers.to_string (length b.data_)))
  unfolding build
  build-data b n = elim (Bool-cases (equal b.data_ [])) [
    | inl e ↦ absurd (n ((equal_iff b.data_ []).0 e))
    | inr e ↦ rw e (
      with_data-content b.data_ b.json (started boost b).message,
      with_data-Content_Length b.data_ b.json (started boost b).message,
    )
  ]
