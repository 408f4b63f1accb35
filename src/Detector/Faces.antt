-- ===== src/Detector/Faces.antt =====
-- facedetector.cpp and DB.cpp: what a run on the command line leaves behind.
use devops_workshop.Numbers.{to_string}
use devops_workshop.Detector.{
  Rect, Vision, Surroundings, Effect, print, imwrite, execute_update, run_server, returns, Run,
  update_text, fixed_path, face_file_path, cascade_path,
}
use devops_workshop.Prelude.{◌≡◌, Option, some, List, [], ◌∷◌, ◌++◌, map, if◌then◌else◌}
use devops_workshop.Bytes.{Text, codes, equal}

-- the last of some values, or an older one
abbrev pub last_or {ℓ} : {A : Type ℓ} → Option A → List A → Option A
last_or old [] = old
last_or old (x ∷ xs) = last_or (some x) xs

module _ (vision : Vision) where
  open vision use {Mat, imread, to_gray, equalize_hist, detect, load, crop, cols, rows}

  -- the statements that the database executes, in order
  abbrev pub statements : List (Effect vision) → List Text
  statements [] = []
  statements (print s ∷ effects) = statements effects
  statements (imwrite path m ∷ effects) = statements effects
  statements (execute_update sql ∷ effects) = sql ∷ statements effects
  statements (run_server port workers cascade ∷ effects) = statements effects

  -- the image in a file, where `old` was there before
  abbrev pub file_after : Text → Option Mat → List (Effect vision) → Option Mat
  file_after path old [] = old
  file_after path old (print s ∷ effects) = file_after path old effects
  file_after path old (imwrite p m ∷ effects) =
      file_after path (if equal p path then some m else old) effects
  file_after path old (execute_update sql ∷ effects) = file_after path old effects
  file_after path old (run_server port workers cascade ∷ effects) = file_after path old effects

  -- the statement for one face
  abbrev pub face_update : Text → Mat → Rect → Text
  face_update face_id input r =
      update_text face_id (codes "true") (to_string (cols (crop r input)))
        (to_string (rows (crop r input)))

  module _ (world : Surroundings) where
    -- The loop leaves, in front of what follows it, a statement for each face, and the last face in
    -- the file.
    abbrev Leaves : Text → Text → Mat → List Rect → Run vision → Run vision → Type 0
    Leaves path face_id input faces rest run =
        (statements run.0 ≡ map (face_update face_id input) faces ++ statements rest.0)
        × ((old : Option Mat)
            → file_after path old run.0
              ≡ file_after path (last_or old (map (λ r. crop r input) faces)) rest.0)
        × (run.1 ≡ rest.1)

    -- the image that a run reads, and what is found in a grey one
    abbrev pub picture : Text → Mat
    picture file_path = imread (fixed_path ++ file_path)

    abbrev pub faces_in : Mat → Option (List Rect)
    faces_in gray = detect (load (cascade_path vision world)) (equalize_hist gray)

    -- A run has had a statement executed for each face, has left the last face in the file, and
    -- returns 0.
    abbrev pub Detected : Text → Text → List Rect → Run vision → Type 0
    Detected file_path face_id faces run =
        (statements run.0 ≡ map (face_update face_id (picture file_path)) faces)
        × ((old : Option Mat)
            → file_after (face_file_path file_path) old run.0
              ≡ last_or old (map (λ r. crop r (picture file_path)) faces))
        × (run.1 ≡ returns 0)
