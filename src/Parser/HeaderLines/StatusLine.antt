-- ===== src/Parser/HeaderLines/StatusLine.antt =====
-- webcc/response_parser.cc: the status lines of globals.cc are read back.
use devops_workshop.Boost.{joined}
use devops_workshop.Numbers.{stoi, pos}
use devops_workshop.Http.Status
use devops_workshop.Http.Globals.{status_line}
use devops_workshop.Parser.State.{Parser, Env, ok}
use devops_workshop.Parser.HeaderLines.{take_status_words, take_status, parse_status_line}
use devops_workshop.Prelude.{
  ℕ, ◌≡◌, ◌≢◌, inl, inr, refl, ap, ◌∙◌, Bool, true, false, ◌&&◌, some, List, [], ◌∷◌, ◌==◌,
  if◌then◌else◌, All, Bool-cases,
}
use devops_workshop.Bytes.{Text, Lacks, codes, lacks, lacks_sound}

-- The code that a status line carries: the status, if it is one of those of `Status`.
abbrev pub reported : ℕ → ℕ
reported status =
    if status == Status.ok
    then 200
    else if status == Status.created
    then 201
    else if status == Status.accepted
    then 202
    else if status == Status.no_content
    then 204
    else if status == Status.not_modified
    then 304
    else if status == Status.bad_request
    then 400
    else if status == Status.not_found
    then 404
    else if status == Status.internal_server_error
    then 500
    else if status == Status.not_implemented
    then 501
    else if status == Status.service_unavailable
    then 503
    else 501

-- words that are not empty and hold no space, a test that literals pass by evaluation
abbrev words : List Text → Bool
words [] = true
words ([] ∷ ws) = false
words ((c ∷ w) ∷ ws) = lacks b' ' (c ∷ w) && words ws

words_sound : (ws : List Text) → words ws ≡ true → All (λ w. (w ≢ []) × Lacks b' ' w) ws
words_sound [] h = tt
words_sound ([] ∷ ws) h = cc
words_sound ((c ∷ w) ∷ ws) h = elim (Bool-cases (lacks b' ' (c ∷ w))) [
  | inl e ↦ (((λ x. cc), lacks_sound b' ' (c ∷ w) e), words_sound ws (rw e at h))
  | inr e ↦ cc (rw e at h)
]

module _ (env : Env) (p : Parser) where
  abbrev Reads : ℕ → Text → Type 0
  Reads n line = parse_status_line env line p ≡ ok (record p { status = pos n })

  Reads-joined :
      (n : ℕ) (status reason : Text) (rest : List Text)
      → stoi status ≡ some (pos n)
      → words (codes "HTTP/1.1" ∷ status ∷ reason ∷ rest) ≡ true
      → Reads n (joined b' ' (codes "HTTP/1.1") (status ∷ reason ∷ rest))
  unfolding parse_status_line
  Reads-joined n status reason rest e h =
      ap (λ ws. take_status_words env ws p)
        (env.boost.split_spaces_joined (codes "HTTP/1.1") (status ∷ reason ∷ rest)
          (words_sound (codes "HTTP/1.1" ∷ status ∷ reason ∷ rest) h))
      ∙ ap (λ o. take_status env o p) e

  Reads-if :
      (b : Bool) (m n : ℕ) (l k : Text)
      → Reads m l
      → Reads n k
      → Reads (if b then m else n) (if b then l else k)
  Reads-if true m n l k r s = r
  Reads-if false m n l k r s = s

  -- The status line of a response is read as a status: the one of the response, if `Status` has it,
  -- and 501 otherwise.
  pub parse_status_line-status_line :
      (status : ℕ)
      → parse_status_line env (status_line status) p
        ≡ ok (record p { status = pos (reported status) })
  unfolding status_line stoi
  parse_status_line-status_line status =
      Reads-if (status == Status.ok) _ _ _ _
        (Reads-joined 200 (codes "200") (codes "OK") ([]) refl refl)
        (Reads-if (status == Status.created) _ _ _ _
          (Reads-joined 201 (codes "201") (codes "Created") ([]) refl refl)
          (Reads-if (status == Status.accepted) _ _ _ _
            (Reads-joined 202 (codes "202") (codes "Accepted") ([]) refl refl)
            (Reads-if (status == Status.no_content) _ _ _ _
              (Reads-joined 204 (codes "204") (codes "No") (codes "Content" ∷ []) refl refl)
              (Reads-if (status == Status.not_modified) _ _ _ _
                (Reads-joined 304 (codes "304") (codes "Not") (codes "Modified" ∷ []) refl refl)
                (Reads-if (status == Status.bad_request) _ _ _ _
                  (Reads-joined 400 (codes "400") (codes "Bad") (codes "Request" ∷ []) refl refl)
                  (Reads-if (status == Status.not_found) _ _ _ _
                    (Reads-joined 404 (codes "404") (codes "Not") (codes "Found" ∷ []) refl refl)
                    (Reads-if (status == Status.internal_server_error) _ _ _ _
                      (Reads-joined 500 (codes "500") (codes "Internal")
                        (codes "Server" ∷ codes "Error" ∷ []) refl refl)
                      (Reads-if (status == Status.not_implemented) _ _ _ _
                        (Reads-joined 501 (codes "501") (codes "Not") (codes "Implemented" ∷ [])
                          refl refl)
                        (Reads-if (status == Status.service_unavailable) _ _ _ _
                          (Reads-joined 503 (codes "503") (codes "Service")
                            (codes "Unavailable" ∷ []) refl refl)
                          (Reads-joined 501 (codes "501") (codes "Not") (codes "Implemented" ∷ [])
                            refl refl))))))))))
