-- ===== src/FaceDetection/Post.antt =====
-- FaceDetectionService.cpp: what a POST is answered with.
use mathlib.Core.Option
use devops_workshop.FaceDetection.Libraries.{Library, Rect}
use devops_workshop.FaceDetection.{
  Image, string_to_json, json_to_image, json_string_to_image, face_detect, face_value, append_faces,
  answer, json_response, respond, post,
}
use devops_workshop.Http.Status
use devops_workshop.Rest.Service.{RestResponse, Handled}
use devops_workshop.Prelude.{
  Bool, ◌≡◌, ◌≢◌, inl, inr, refl, sym, ap, ◌∙◌, true, false, Option, none, some, List, [], ◌∷◌,
  ◌++◌, map, if◌then◌else◌, append_assoc, append-nil, Bool-cases,
}
use devops_workshop.Bytes.{Text, codes, equal}

module _ (lib : Library) where
  open lib use {Value, Cascade, is_null, elements, elements_empty, elements_append, empty_array}

  -- The array of faces holds one object for each face, in the order of the detector, behind what it
  -- held before.
  pub elements-append_faces :
      (rs : List (Rect lib)) (faces : Value)
      → elements (append_faces lib rs faces) ≡ elements faces ++ map (face_value lib) rs
  unfolding append_faces
  elements-append_faces [] faces = sym (append-nil (elements faces))
  elements-append_faces (r ∷ rs) faces =
      elements-append_faces rs (lib.append (face_value lib r) faces)
      ∙ ap (λ l. l ++ map (face_value lib) rs) (elements_append (face_value lib r) faces)
      ∙ append_assoc (elements faces) (face_value lib r ∷ []) (map (face_value lib) rs)

  equal-nil : (s : Text) → s ≢ [] → equal s [] ≡ false
  unfolding equal
  equal-nil [] n = absurd (n refl)
  equal-nil (c ∷ s) n = refl

  -- How a POST ends.
  pub data Posted (cascade : Cascade) (content : Text) (response : RestResponse)
      : Handled → Type 0 where
    -- an empty body leaves the response as it was
    ignored : content ≡ [] → Posted cascade content response (some response)
    -- A root that is null is a bad request, whether or not the text was accepted.
    bad :
        (accepted : Bool) (root : Value)
        → content ≢ []
        → lib.parse_from_stream content ≡ (accepted, root)
        → is_null root ≡ true
        → Posted cascade content response (some (record response { status = Status.bad_request }))
    -- A root whose members cannot be read raises an exception.
    failed :
        (accepted : Bool) (root : Value)
        → content ≢ []
        → lib.parse_from_stream content ≡ (accepted, root)
        → is_null root ≡ false
        → json_to_image lib root ≡ none
        → Posted cascade content response none
    -- Otherwise an array of faces is sent, also where the text was refused and only a part of it stands
    -- in the root: empty for an image without data, and else with one element for each face detected,
    -- in order.
    created :
        (accepted : Bool) (root : Value) (image : Image lib) (faces : Value)
        → content ≢ []
        → lib.parse_from_stream content ≡ (accepted, root)
        → is_null root ≡ false
        → json_to_image lib root ≡ some image
        → elements faces
          ≡ map (face_value lib) (
              if lib.is_empty image.input
              then []
              else lib.detect cascade (lib.equalize_hist image.input))
        → Posted cascade content response (
            some (
              json_response lib Status.created (
                lib.set_member
                  (codes "faces")
                  faces
                  (lib.set_member (codes "faceId") (lib.of_text image.face_id) lib.null))))

  post-open :
      (cascade : Cascade) (content : Text) (response : RestResponse)
      → content ≢ []
      → post lib cascade content response
        ≡ Option.map
            (λ (found : Option (Image lib)). respond lib cascade found response)
            (json_string_to_image lib content)
  unfolding post
  post-open cascade content response n = rw (equal-nil content n)

  read :
      (content : Text)
      → is_null (string_to_json lib content) ≡ false
      → json_string_to_image lib content
        ≡ Option.map some (json_to_image lib (string_to_json lib content))
  unfolding json_string_to_image
  read content n = rw n

  detected :
      (cascade : Cascade) (image : Image lib)
      → face_detect lib cascade image ≡ (
          if lib.is_empty image.input
          then []
          else lib.detect cascade (lib.equalize_hist image.input))
  unfolding face_detect
  detected cascade image = refl

  -- Every POST ends in one of four ways, whether or not the parser accepts its text: it is ignored, for
  -- an empty body; a bad request, where the parser leaves a root that is null; a failure by exception,
  -- where the members of the root cannot be read; or created, with an array of faces that is empty for
  -- an image without data, and else holds one element for each face detected, in order.
  pub post-Posted :
      (cascade : Cascade) (content : Text) (response : RestResponse)
      → Posted cascade content response (post lib cascade content response)
  post-Posted cascade [] response = unfold post in ignored refl
  post-Posted cascade (c ∷ s) response = elim (Bool-cases (is_null (string_to_json lib (c ∷ s)))) [
    | inl null_ ↦ rw (post-open cascade (c ∷ s) response (λ e. cc)) (
        unfold json_string_to_image in
        rw null_ (bad (lib.parse_from_stream (c ∷ s)).0 _ (λ e. cc) root_lem null_))
    | inr value ↦
        rw (post-open cascade (c ∷ s) response (λ e. cc), read (c ∷ s) value)
          (go value (json_to_image lib (string_to_json lib (c ∷ s))) refl)
  ]
    where
      root_lem :
          lib.parse_from_stream (c ∷ s)
          ≡ ((lib.parse_from_stream (c ∷ s)).0, string_to_json lib (c ∷ s))
      root_lem = unfold string_to_json in refl

      sent : (image : Image lib) → Value
      sent image = append_faces lib (face_detect lib cascade image) empty_array

      sent_lem :
          (image : Image lib)
          → elements (sent image) ≡ map (face_value lib) (face_detect lib cascade image)
      sent_lem image =
          elements-append_faces (face_detect lib cascade image) empty_array
          ∙ ap (λ l. l ++ map (face_value lib) (face_detect lib cascade image)) elements_empty

      go :
          is_null (string_to_json lib (c ∷ s)) ≡ false
          → (o : Option (Image lib)) → json_to_image lib (string_to_json lib (c ∷ s)) ≡ o
          → Posted cascade (c ∷ s) response (
              Option.map
                (λ (found : Option (Image lib)). respond lib cascade found response)
                (Option.map some o))
      go v none e = failed _ _ (λ x. cc) root_lem v e
      go v (some image) e =
          unfold answer in
          created _ _ image (sent image) (λ x. cc) root_lem v e
            (sent_lem image ∙ ap (map (face_value lib)) (detected cascade image))
