-- ===== src/Examples/Rest.antt =====
-- webcc/rest_service_manager.cc and FaceDetectionService.cpp at concrete inputs, over small stand-ins
-- for std::regex, jsoncpp, OpenCV and base64.
use mathlib.Core.Option
use devops_workshop.Prelude.{
  ℕ, ◌≡◌, refl, Option, none, some, List, [], ◌∷◌, ◌++◌, Bool, true, false, if◌then◌else◌, map,
}
use devops_workshop.Bytes.{Text, codes, equal, cut}
use devops_workshop.Http.Request.{Request, blank_request}
use devops_workshop.Http.Response.{Response}
use devops_workshop.Rest.Service.{unset_response}
use devops_workshop.Rest.Manager.{Regex, ServiceItem, plain, add_service, get_service, first_of_two}
use devops_workshop.Rest.Manager.Dispatch.{bound_match, get_service-add_service}
use devops_workshop.Rest.Handler.{handle_connection}
use devops_workshop.FaceDetection.{post}
use devops_workshop.FaceDetection.Libraries.{Library}
use devops_workshop.FaceDetection.Post.{Posted, post-Posted}
use devops_workshop.FaceDetection.Routes.{images, expected_status, handle_connection-images}
use devops_workshop.Examples.AsciiBoost.{ascii_boost}

abbrev pub compile_prefix : Text → Option Text
compile_prefix [] = none
compile_prefix (c ∷ s) = some (c ∷ s)

abbrev pub behind_prefix : Text → Text → Option (List Text)
behind_prefix [] s = some (s ∷ [])
behind_prefix (c ∷ p) [] = none
behind_prefix (c ∷ p) (d ∷ s) =
    let rest = behind_prefix p s in if equal (c ∷ []) (d ∷ []) then rest else none

-- Expressions that are a prefix with one group behind it.
abbrev pub prefix_regex : Regex
prefix_regex = record { Compiled = Text; compile = compile_prefix; regex_match = behind_prefix }

abbrev one_item : List (ServiceItem prefix_regex ℕ)
one_item = plain 1 (codes "/images") ∷ []

get_service-add_service_example :
    get_service prefix_regex ℕ
      (codes "/images/7")
      (add_service prefix_regex ℕ 2 (codes "/images/") true one_item).0
    ≡ first_of_two prefix_regex ℕ
        (get_service prefix_regex ℕ (codes "/images/7") one_item)
        (bound_match prefix_regex ℕ 2 (codes "/images/") true (codes "/images/7"))
get_service-add_service_example =
    get_service-add_service prefix_regex ℕ 2 (codes "/images/") true one_item (codes "/images/7")

pub data Value : Type 0 where
  nothing empty_list : Value
  text : Text → Value
  number : ℕ → Value
  appended : Value → Value → Value
  with_field : Text → Value → Value → Value

abbrev pub elements_of : Value → List Value
elements_of (appended v a) = elements_of a ++ v ∷ []
elements_of v = []

abbrev pub field : Text → Value → Option Value
field name nothing = some nothing
field name (with_field key v rest) =
    let later = field name rest in if equal key name then some v else later
field name v = none

abbrev pub text_of : Value → Option Text
text_of (text s) = some s
text_of v = none

abbrev pub is_nothing : Value → Bool
is_nothing nothing = true
is_nothing v = false

-- "id:data" stands for an object with the two members that the service reads.
abbrev pub object_of : Option (Text × Text) → Bool × Value
object_of none = (false, nothing)
object_of (some (id, encoded)) = (
  true,
  with_field (codes "faceId") (text id) (with_field (codes "imageData") (text encoded) nothing),
)

abbrev pub small_library : Library
small_library = record {
  Value = Value;
  Int = ℕ;
  Mat = Text;
  Cascade = ℕ;
  parse_from_stream = λ s. object_of (cut b':' s);
  is_null = is_nothing;
  member = field;
  as_string = text_of;
  null = nothing;
  empty_array = empty_list;
  of_text = text;
  of_int = number;
  set_member = with_field;
  append = appended;
  elements = elements_of;
  elements_empty = refl;
  elements_append = λ v a. refl;
  write_string = λ v. codes "json";
  base64_decode = λ s. s;
  imdecode = λ s. s;
  no_image = [];
  is_empty = λ s. equal s [];
  equalize_hist = λ s. s;
  detect = λ c s. map (λ x. record { x = x; y = x; width = c; height = c }) s;
}

post-Posted_example :
    Posted small_library 5
      (codes "7:ab")
      (unset_response 0)
      (post small_library 5 (codes "7:ab") (unset_response 0))
post-Posted_example = post-Posted small_library 5 (codes "7:ab") (unset_response 0)

abbrev post_request : Request
post_request = record blank_request {
  method = codes "POST";
  url = record (blank_request.url) { path = codes "images" };
}

handle_connection-images_example :
    Option.map
      (λ (r : Response). r.status)
      (handle_connection ascii_boost prefix_regex
        (codes "now")
        77
        (images ascii_boost prefix_regex small_library 5)
        post_request)
    ≡ expected_status ascii_boost prefix_regex small_library 5 77 post_request
handle_connection-images_example =
    handle_connection-images ascii_boost prefix_regex small_library 5 (codes "now") 77 post_request
