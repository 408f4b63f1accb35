-- ===== src/FaceDetection/Routes.antt =====
-- FaceDetectionService.cpp behind webcc: facedetector.cpp binds the service to /images, and no other.
use mathlib.Core.Option
use devops_workshop.Boost.{Boost}
use devops_workshop.FaceDetection.Libraries.{Library}
use devops_workshop.FaceDetection.{post, face_detection_service}
use devops_workshop.Http.Status
use devops_workshop.Http.Request.{Request}
use devops_workshop.Http.Response.{Response, new_response}
use devops_workshop.Rest.Service.{RestResponse, unset_response, Service, handle}
use devops_workshop.Rest.Manager.{Regex, ServiceItem, add_service, get_service}
use devops_workshop.Rest.Handler.{
  typed_response, make_response, send_response, answered, served, handle_connection,
}
use devops_workshop.Prelude.{
  ℕ, ◌≡◌, inl, inr, refl, ap, ◌∙◌, Bool, true, false, not, Option, none, some, List, [], ◌∷◌,
  if◌then◌else◌, Bool-cases,
}
use devops_workshop.Bytes.{Text, codes, equal}

module _ (boost : Boost) where
  send_response-status :
      (timestamp : Text) (request : Request) (r : Response)
      → (send_response boost timestamp request r).status ≡ r.status
  unfolding send_response
  send_response-status timestamp request r = refl

  typed_response-status :
      (rest : RestResponse) (r : Response) → (typed_response boost rest r).status ≡ r.status
  typed_response-status rest r = elim (Bool-cases (equal rest.media_type [])) [
    | inl e ↦ rw e refl
    | inr e ↦ rw e refl
  ]

  make_response-status : (rest : RestResponse) → (make_response boost rest).status ≡ rest.status
  unfolding make_response
  make_response-status rest = elim (Bool-cases (equal rest.content [])) [
    | inl e ↦ rw e refl
    | inr e ↦ rw e (typed_response-status rest (new_response rest.status))
  ]

  answered-status :
      (timestamp : Text) (request : Request) (o : Option RestResponse)
      → Option.map (λ (r : Response). r.status) (answered boost timestamp request o)
        ≡ Option.map (λ (r : RestResponse). r.status) o
  answered-status timestamp request none = refl
  answered-status timestamp request (some rest) = ap some (
      send_response-status timestamp request (make_response boost rest) ∙ make_response-status rest)

module _ (boost : Boost) (regex : Regex) (lib : Library) where
  -- what `main` binds
  abbrev pub images : lib.Cascade → List (ServiceItem regex Service)
  images cascade =
      (add_service regex Service (face_detection_service lib cascade) (codes "/images") false []).0

  -- The status of the answer to a request, `none` for an exception, where `unset` stands in a status
  -- that no one has written.
  abbrev pub expected_status : lib.Cascade → ℕ → Request → Option ℕ
  expected_status cascade unset request =
      if not (equal (codes "/images") (b'/' ∷ request.url.path))
      then some Status.not_found
      else if equal request.method (codes "GET")
      then some Status.ok
      else if equal request.method (codes "POST")
      then Option.map (λ (r : RestResponse). r.status)
          (post lib cascade request.message.content (unset_response unset))
      else some unset

  abbrev by_method : lib.Cascade → ℕ → Request → Option ℕ
  by_method cascade unset request =
      if equal request.method (codes "GET")
      then some Status.ok
      else if equal request.method (codes "POST")
      then Option.map (λ (r : RestResponse). r.status)
          (post lib cascade request.message.content (unset_response unset))
      else some unset

  handled-status :
      (cascade : lib.Cascade) (unset : ℕ) (request : Request)
      → Option.map
          (λ (r : RestResponse). r.status)
          (handle
            (face_detection_service lib cascade)
            (record { http = request; url_matches = [] })
            (unset_response unset))
        ≡ by_method cascade unset request
  unfolding handle face_detection_service
  handled-status cascade unset request = elim (Bool-cases (equal request.method (codes "GET"))) [
    | inl get_ ↦ rw get_ refl
    | inr other ↦ rw other (elim (Bool-cases (equal request.method (codes "POST"))) [
      | inl post_ ↦ rw post_ refl
      | inr no_other ↦ rw no_other refl
    ])
  ]

  pub found :
      (cascade : lib.Cascade) (url : Text)
      → get_service regex Service url (images cascade) ≡ (
          if equal (codes "/images") url
          then some (face_detection_service lib cascade, [])
          else none)
  unfolding get_service add_service
  found cascade url = elim (Bool-cases (equal (codes "/images") url)) [
    | inl e ↦ rw e refl
    | inr e ↦ rw e refl
  ]

  served-status :
      (cascade : lib.Cascade) (timestamp : Text) (unset : ℕ) (request : Request) (b : Bool)
      → Option.map
          (λ (r : Response). r.status)
          (served boost regex timestamp unset request
            (if b then some (face_detection_service lib cascade, []) else none))
        ≡ (if not b then some Status.not_found else by_method cascade unset request)
  served-status cascade timestamp unset request true =
      answered-status boost timestamp request (
        handle (face_detection_service lib cascade) (record { http = request; url_matches = [] })
          (unset_response unset))
      ∙ handled-status cascade unset request
  served-status cascade timestamp unset request false =
      ap some (send_response-status boost timestamp request (new_response Status.not_found))

  -- The server answers a path other than /images with 404, a GET with 200, and a POST with the status
  -- that `Post` sets; any other method is answered with whatever stands in the status field.
  pub handle_connection-images :
      (cascade : lib.Cascade) (timestamp : Text) (unset : ℕ) (request : Request)
      → Option.map
          (λ (r : Response). r.status)
          (handle_connection boost regex timestamp unset (images cascade) request)
        ≡ expected_status cascade unset request
  unfolding handle_connection
  handle_connection-images cascade timestamp unset request =
      ap
        (λ o.
          Option.map (λ (r : Response). r.status) (served boost regex timestamp unset request o))
        (found cascade (b'/' ∷ request.url.path))
      ∙ served-status cascade timestamp unset request
          (equal (codes "/images") (b'/' ∷ request.url.path))
