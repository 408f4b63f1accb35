-- ===== src/FaceDetection.antt =====
-- facedetection_va/FaceDetectionService.h and FaceDetectionService.cpp: the service behind /images.
-- jsoncpp, OpenCV and base64 are parameters. Waiting and logging leave no trace in the model.
pub mod Libraries
pub mod Post
pub mod Routes
pub mod Exchange
pub mod Served
use mathlib.Core.Option
use devops_workshop.FaceDetection.Libraries.{Library, Rect}
use devops_workshop.Http.Status
use devops_workshop.Url.Query.{Parameters}
use devops_workshop.Rest.Service.{RestResponse, Handled, Service, list}
use devops_workshop.Prelude.{
  ℕ, zero, suc, true, false, Option, none, some, List, [], ◌∷◌, map, if◌then◌else◌,
}
use devops_workshop.Bytes.{Text, codes, equal, cut, strip}

module _ (lib : Library) where
  open lib use {
    Value, Mat, Cascade, parse_from_stream, is_null, member, as_string, null, empty_array, of_text,
    of_int, set_member, append, write_string, base64_decode, imdecode, no_image, is_empty,
    equalize_hist, detect,
  }

  -- `Image`
  pub record Image : Type 0 where
    pub face_id : Text
    pub input : Mat

  -- `StringToJson`: the value is returned also where the text was refused
  unfoldable pub string_to_json : Text → Value
  string_to_json s = (parse_from_stream s).1

  -- `Image::setImageData`
  unfoldable pub set_image_data : Text → Image → Image
  set_image_data encoded image = record image { input = imdecode (base64_decode encoded) }

  infixl 5 ◌>>=◌
  abbrev ◌>>=◌ : {A B : Type 0} → Option A → (A → Option B) → Option B
  none >>= f = none
  some a >>= f = f a

  abbrev pub with_data : Value → Image → Option Image
  with_data v image =
      if is_null v
      then some image
      else Option.map (λ (encoded : Text). set_image_data encoded image) (as_string v)

  -- `JsonToImage`; `none` is an exception of the library
  unfoldable pub json_to_image : Value → Option Image
  unfolding set_image_data
  json_to_image json = do
    id_value ← member (codes "faceId") json
    id ← as_string id_value
    image_value ← member (codes "imageData") json
    with_data image_value (record { face_id = id; input = no_image })

  -- `JsonStringToImage`: an exception, `false`, or the image
  unfoldable pub json_string_to_image : Text → Option (Option Image)
  unfolding string_to_json json_to_image
  json_string_to_image s =
      if is_null (string_to_json s)
      then some none
      else Option.map some (json_to_image (string_to_json s))

  -- `Image::faceDetect`: the faces found
  unfoldable pub face_detect : Cascade → Image → List (Rect lib)
  face_detect cascade image =
      if is_empty image.input then [] else detect cascade (equalize_hist image.input)

  -- one face, in the loop of `Post`
  unfoldable pub face_value : Rect lib → Value
  face_value r = set_member (codes "y") (of_int r.y) (
      set_member (codes "x") (of_int r.x) (
        set_member (codes "height") (of_int r.height)
          (set_member (codes "width") (of_int r.width) null)))

  -- the loop of `Post`
  unfoldable pub append_faces : List (Rect lib) → Value → Value
  unfolding face_value
  append_faces [] faces = faces
  append_faces (r ∷ rs) faces = append_faces rs (append (face_value r) faces)

  -- the answer for an image
  unfoldable pub answer : Text → List (Rect lib) → Value
  unfolding append_faces
  answer face_id faces =
      set_member (codes "faces") (append_faces faces empty_array)
        (set_member (codes "faceId") (of_text face_id) null)

  abbrev pub json_type : Text
  json_type = codes "application/json"

  abbrev pub json_response : ℕ → Value → RestResponse
  json_response status v = record {
    status = status;
    content = write_string v;
    media_type = json_type;
    charset = codes "utf-8";
  }

  abbrev pub respond : Cascade → Option Image → RestResponse → RestResponse
  respond cascade none response = record response { status = Status.bad_request }
  respond cascade (some image) response =
      json_response Status.created (answer image.face_id (face_detect cascade image))

  -- `FaceDetectionService::Post`
  unfoldable pub post : Cascade → Text → RestResponse → Handled
  unfolding equal json_string_to_image answer face_detect
  post cascade content response =
      if equal content []
      then some response
      else Option.map (λ (found : Option Image). respond cascade found response)
          (json_string_to_image content)

  -- `FaceDetectionService::Get`
  unfoldable pub get : Parameters → RestResponse → Handled
  get query response = some (json_response Status.ok empty_array)

  -- `FaceDetectionService`
  unfoldable pub face_detection_service : Cascade → Service
  unfolding post get
  face_detection_service cascade = list (record { get = get; post = post cascade })
