-- ===== src/Examples/Detector.antt =====
-- facedetector.cpp on the command line, over a small stand-in for OpenCV: an image is a text, and each
-- character of a grey one that is above 100 is a face.
use devops_workshop.Prelude.{
  ℕ, ◌≡◌, refl, true, false, Option, none, some, List, [], ◌∷◌, ◌++◌, ltb, if◌then◌else◌,
}
use devops_workshop.Bytes.{Text, codes, lacks_sound}
use devops_workshop.Detector.{Rect, Vision, Surroundings, fixed_path, face_file_path}
use devops_workshop.Detector.Paths.{face_file_path-image}

abbrev faces_of : Text → List Rect
faces_of [] = []
faces_of (c ∷ s) =
    let rest = faces_of s in
    if ltb 100 c then record { x = 0; y = 0; width = c; height = 10 } ∷ rest else rest

abbrev gray_or_none : Text → Option Text
gray_or_none [] = none
gray_or_none (c ∷ s) = some (c ∷ s)

abbrev small_vision : Vision
small_vision = record {
  Mat = Text;
  Cascade = ℕ;
  load = λ path. 7;
  is_empty = λ c. false;
  imread = λ path. codes "Az";
  to_gray = gray_or_none;
  equalize_hist = λ m. m;
  detect = λ c m. some (faces_of m);
  crop = λ r m. m;
  cols = λ m. 20;
  rows = λ m. 30;
}

abbrev good_day : Surroundings
good_day = record { connects = true; executes = λ sql. true; server_throws = false }

abbrev one_face : List Rect
one_face = record { x = 0; y = 0; width = b'z'; height = 10 } ∷ []

face_file_path-image_example :
    face_file_path (codes "/uploads/fimage64/image/21/image.png")
    ≡ fixed_path ++ codes "/uploads/fimage64/image/21/face.jpg"
face_file_path-image_example =
    face_file_path-image (codes "/uploads/fimage64/image/21/")
      (lacks_sound b'.' (codes "/uploads/fimage64/image/21/") refl)
