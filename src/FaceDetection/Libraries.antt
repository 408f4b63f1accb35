-- ===== src/FaceDetection/Libraries.antt =====
-- What FaceDetectionService.cpp uses of json/, base64/ and OpenCV.
use devops_workshop.Prelude.{◌≡◌, Bool, Option, List, [], ◌∷◌, ◌++◌}
use devops_workshop.Bytes.{Text}

-- The parameters. A `Value` is a `Json::Value`; `none` is a `Json::LogicError`. An array holds its
-- elements in the order in which they were appended.
pub record Library : Type 1 where
  pub Value : Type 0
  pub Int : Type 0
  pub Mat : Type 0
  pub Cascade : Type 0
  -- `Json::parseFromStream`: its result, and what it leaves in the root
  pub parse_from_stream : Text → Bool × Value
  pub is_null : Value → Bool
  pub member : Text → Value → Option Value
  pub as_string : Value → Option Text
  pub null : Value
  pub empty_array : Value
  pub of_text : Text → Value
  pub of_int : Int → Value
  -- `object[name] = value` and `array.append(value)`
  pub set_member : Text → Value → Value → Value
  pub append : Value → Value → Value
  pub elements : Value → List Value
  pub elements_empty : elements empty_array ≡ []
  pub elements_append : (v a : Value) → elements (append v a) ≡ elements a ++ v ∷ []
  -- `Json::writeString`
  pub write_string : Value → Text
  pub base64_decode : Text → Text
  -- `imdecode` in grey scale, and an image without data
  pub imdecode : Text → Mat
  pub no_image : Mat
  pub is_empty : Mat → Bool
  pub equalize_hist : Mat → Mat
  -- `detectMultiScale` with the arguments of the source: x, y, width and height of each face
  pub detect : Cascade → Mat → List (record { x : Int; y : Int; width : Int; height : Int })

-- `cv::Rect`
abbrev pub Rect : Library → Type 0
Rect lib = record { x : lib.Int; y : lib.Int; width : lib.Int; height : lib.Int }
