-- ===== src/Rest/Service.antt =====
-- webcc/rest_service.h and rest_service.cc: `RestListService` and `RestDetailService`.
use devops_workshop.Http.Request.{Request}
use devops_workshop.Url.Query.{Parameters, parse}
use devops_workshop.Prelude.{ℕ, Option, some, List, [], if◌then◌else◌}
use devops_workshop.Bytes.{Text, codes, equal}

-- `RestResponse`. Its status has no initial value: whatever stands there is an argument.
pub record RestResponse : Type 0 where
  pub status : ℕ
  pub content : Text
  pub media_type : Text
  pub charset : Text

abbrev pub unset_response : ℕ → RestResponse
unset_response status = record { status = status; content = []; media_type = []; charset = [] }

-- `RestRequest`
pub record RestRequest : Type 0 where
  pub http : Request
  pub url_matches : List Text

-- A handler fills the response, or throws.
abbrev pub Handled : Type 0
Handled = Option RestResponse

-- the virtual functions of `RestListService`
pub record ListService : Type 0 where
  pub get : Parameters → RestResponse → Handled
  pub post : Text → RestResponse → Handled

-- the virtual functions of `RestDetailService`
pub record DetailService : Type 0 where
  pub get : List Text → Parameters → RestResponse → Handled
  pub put : List Text → Text → RestResponse → Handled
  pub patch : List Text → Text → RestResponse → Handled
  pub delete : List Text → RestResponse → Handled

-- `RestListService::Handle`
unfoldable pub handle_list : ListService → RestRequest → RestResponse → Handled
unfolding equal
handle_list service request response =
    let method = request.http.method in
    if equal method (codes "GET")
    then service.get (parse request.http.url.query) response
    else if equal method (codes "POST")
    then service.post request.http.message.content response
    else some response

-- `RestDetailService::Handle`
unfoldable pub handle_detail : DetailService → RestRequest → RestResponse → Handled
unfolding equal
handle_detail service request response =
    let method = request.http.method in
    if equal method (codes "GET")
    then service.get request.url_matches (parse request.http.url.query) response
    else if equal method (codes "PUT")
    then service.put request.url_matches request.http.message.content response
    else if equal method (codes "PATCH")
    then service.patch request.url_matches request.http.message.content response
    else if equal method (codes "DELETE")
    then service.delete request.url_matches response
    else some response

-- a service, as `RestService::Handle` is dispatched
pub data Service : Type 0 where
  list : ListService → Service
  detail : DetailService → Service

unfoldable pub handle : Service → RestRequest → RestResponse → Handled
unfolding handle_list handle_detail
handle (list s) = handle_list s
handle (detail s) = handle_detail s
