-- ===== src/Detector.antt =====
-- facedetection_va/facedetector.cpp, DB.h and DB.cpp: `main`, on the command line and as a server, and
-- the statements that it has the database execute. OpenCV, the database and the server that runs are
-- parameters.
pub mod Faces
pub mod Paths
use devops_workshop.Numbers.{to_string}
use devops_workshop.Prelude.{
  ℕ, zero, suc, Bool, true, false, not, ◌&&◌, Option, none, some, List, [], ◌∷◌, ◌++◌, ltb,
  if◌then◌else◌, length,
}
use devops_workshop.Bytes.{Text, codes, equal, cut_on}

-- `cv::Rect`
pub record Rect : Type 0 where
  pub x : ℕ
  pub y : ℕ
  pub width : ℕ
  pub height : ℕ

-- What `main` uses of OpenCV. `none` is a `cv::Exception`.
pub record Vision : Type 1 where
  pub Mat : Type 0
  pub Cascade : Type 0
  -- `CascadeClassifier::load` on a new classifier, and `empty`
  pub load : Text → Cascade
  pub is_empty : Cascade → Bool
  pub imread : Text → Mat
  -- `cvtColor` to grey, and `equalizeHist`
  pub to_gray : Mat → Option Mat
  pub equalize_hist : Mat → Mat
  -- `detectMultiScale` with the arguments of the source
  pub detect : Cascade → Mat → Option (List Rect)
  -- a copy of a part of an image, its `cols` and its `rows`
  pub crop : Rect → Mat → Mat
  pub cols : Mat → ℕ
  pub rows : Mat → ℕ

-- What a run meets: whether the constructor of `DB` gets to its statement object, whether
-- `executeUpdate` returns without an exception, and whether an exception leaves the server.
pub record Surroundings : Type 0 where
  pub connects : Bool
  pub executes : Text → Bool
  pub server_throws : Bool

module _ (vision : Vision) where
  open vision use {
    Mat, Cascade, load, is_empty, imread, to_gray, equalize_hist, detect, crop, cols, rows,
  }

  -- what a run does outside the program, but for its logging
  pub data Effect : Type 0 where
    -- to the standard output
    print : Text → Effect
    imwrite : Text → Mat → Effect
    execute_update : Text → Effect
    -- a server on a port, with some number of workers, that binds the service to /images, is made and
    -- runs until it ends, or until it throws
    run_server : ℕ → ℕ → Cascade → Effect

  -- How a run ends: by `return`, by an exception that leaves `main`, or in undefined behaviour, where
  -- a null pointer is taken for a text, or a statement object is used that is not there.
  pub data Ending : Type 0 where
    returns : ℕ → Ending
    uncaught : Ending
    undefined : Ending

  abbrev pub Run : Type 0
  Run = List Effect × Ending

  -- one more effect in front
  abbrev pub then_ : Effect → Run → Run
  then_ effect (effects, ending) = (effect ∷ effects, ending)

-- the text of `DB::updateFaceInfo`
unfoldable pub update_text : Text → Text → Text → Text → Text
update_text face_id found width height =
    codes "UPDATE fimage64s SET faceFound = "
    ++ (found
        ++ (codes " , faceWidth ="
            ++ (width
                ++ (codes ", faceHeight="
                    ++ (height ++ (codes " WHERE ID = " ++ (face_id ++ codes ";")))))))

abbrev pub fixed_path : Text
fixed_path = codes "/home/jednipat/works/devops_workshop/facedetection_webapp/public"

abbrev pub before_or_all : Text → Option (Text × Text) → Text
before_or_all s none = s
before_or_all s (some (before, behind)) = before

-- `sFaceFilePath`
unfoldable pub face_file_path : Text → Text
face_file_path file_path =
    fixed_path
    ++ (before_or_all file_path (cut_on (codes "image.png") file_path) ++ codes "face.jpg")

module _ (vision : Vision) (world : Surroundings) where
  open vision use {
    Mat, Cascade, load, is_empty, imread, to_gray, equalize_hist, detect, crop, cols, rows,
  }

  -- `DB::updateFaceInfo`, and what follows it
  unfoldable pub update_face_info : Text → Text → Text → Text → Run vision → Run vision
  unfolding update_text
  update_face_info face_id found width height rest =
      let sql = update_text face_id found width height in
      then_ vision (print (codes "sSQLUpdate" ++ (sql ++ 10 ∷ []))) (
        if not world.connects
        then ([], undefined)
        else then_ vision (execute_update sql)
            (if world.executes sql then rest else ([], uncaught)))

  -- the loop over the faces, and what follows it
  unfoldable pub each_face : Text → Text → Mat → List Rect → Run vision → Run vision
  unfolding update_face_info to_string
  each_face path face_id input [] rest = rest
  each_face path face_id input (r ∷ faces) rest =
      let face = crop r input in
      let later = each_face path face_id input faces rest in
      then_ vision (imwrite path face) (
        update_face_info face_id (codes "true") (to_string (cols face)) (to_string (rows face))
          later)

  abbrev pub cascade_path : Text
  cascade_path =
      codes "/home/jednipat/works/devops_workshop/facedetection_va/haarcascade_frontalface_alt.xml"

  abbrev pub on_faces : Text → Text → Mat → Option (List Rect) → Run vision
  on_faces path face_id input none = ([], uncaught)
  on_faces path face_id input (some faces) =
      each_face path face_id input faces
        (print (to_string (length faces) ++ 10 ∷ []) ∷ [], returns 0)

  abbrev pub on_gray : Text → Text → Mat → Option Mat → Run vision
  on_gray path face_id input none = ([], uncaught)
  on_gray path face_id input (some gray) =
      on_faces path face_id input (detect (load cascade_path) (equalize_hist gray))

  -- the command line, behind the reading of its arguments
  unfoldable pub detect_faces : Text → Text → Run vision
  unfolding face_file_path each_face to_string
  detect_faces file_path face_id =
      let path = face_file_path file_path in
      let input = imread (fixed_path ++ file_path) in
      then_ vision (print (codes "sFaceFilePath: " ++ (path ++ 10 ∷ [])))
        (on_gray path face_id input (to_gray input))

  abbrev pub server_cascade_path : Text
  server_cascade_path =
      codes "/home/dev/devops_workshop/facedetection_va/haarcascade_frontalface_alt.xml"

  -- the server: port 444 and two workers; an exception is caught and reported
  unfoldable pub serve : Run vision
  serve =
      let cascade = load server_cascade_path in
      if is_empty cascade
      then ([], returns 1)
      else (run_server 444 2 cascade ∷ [], returns (if world.server_throws then 1 else 0))

  -- `argv[i]`: `none` is the null pointer behind the arguments, and what is behind it
  abbrev pub argv : List Text → ℕ → Option Text
  argv [] i = none
  argv (a ∷ args) zero = some a
  argv (a ∷ args) (suc i) = argv args i

  abbrev pub with_id : Text → Option Text → Run vision
  with_id file_path none = ([], undefined)
  with_id file_path (some face_id) = detect_faces file_path face_id

  abbrev pub with_first : List Text → Option Text → Run vision
  with_first args none = ([], undefined)
  with_first args (some first) =
      if ltb 0 (length args) && equal first (codes "server")
      then serve
      else with_id first (argv args 2)

  -- `main`, on the name of the program and its arguments
  unfoldable pub main : List Text → Run vision
  unfolding serve detect_faces equal
  main args = with_first args (argv args 1)
