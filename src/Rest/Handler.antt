-- ===== src/Rest/Handler.antt =====
-- webcc/rest_request_handler.cc and connection.cc: what `RestRequestHandler::HandleConnection` makes of
-- a request, up to the response that `Connection::SendResponse` writes. gzip is not built in.
use devops_workshop.Boost.{Boost}
use devops_workshop.Http.Status
use devops_workshop.Http.Message.{
  Message, set_header, set_content, set_content_type, is_connection_keep_alive,
}
use devops_workshop.Http.Request.{Request}
use devops_workshop.Http.Response.{Response, new_response, prepare_response}
use devops_workshop.Rest.Service.{RestResponse, unset_response, Service, handle}
use devops_workshop.Rest.Manager.{Regex, ServiceItem, get_service}
use devops_workshop.Prelude.{ℕ, Bool, true, Option, none, some, List, [], ◌∷◌, if◌then◌else◌}
use devops_workshop.Bytes.{Text, codes, equal}

module _ (boost : Boost) where
  abbrev pub with_response : (Message → Message) → Response → Response
  with_response f r = record r { message = f r.message }

  -- `RestRequestHandler::SetContent`
  unfoldable pub set_response_content : Text → Response → Response
  unfolding set_content
  set_response_content content r = with_response (set_content boost content true) r

  abbrev pub typed_response : RestResponse → Response → Response
  typed_response rest r =
      if equal rest.media_type []
      then r
      else with_response (set_content_type boost rest.media_type rest.charset) r

  -- the response that a service's answer is turned into
  unfoldable pub make_response : RestResponse → Response
  unfolding set_response_content set_content_type equal
  make_response rest =
      let fresh = new_response rest.status in
      if equal rest.content []
      then fresh
      else set_response_content rest.content (typed_response rest fresh)

  -- the value of the Connection field of a response
  abbrev pub connection_text : Bool → Text
  connection_text keep = if keep then codes "Keep-Alive" else codes "Close"

  -- `Connection::SendResponse`: the response that `DoWrite` writes
  unfoldable pub send_response : Text → Request → Response → Response
  unfolding prepare_response is_connection_keep_alive
  send_response timestamp request r = prepare_response boost timestamp (
      with_response
        (set_header boost (codes "Connection")
          (connection_text (is_connection_keep_alive boost request.message)))
        r)

  -- `none` is an exception that leaves the handler
  abbrev pub answered : Text → Request → Option RestResponse → Option Response
  answered timestamp request none = none
  answered timestamp request (some rest) =
      some (send_response timestamp request (make_response rest))

  module _ (regex : Regex) where
    abbrev pub served : Text → ℕ → Request → Option (Service × List Text) → Option Response
    served timestamp unset request none =
        some (send_response timestamp request (new_response Status.not_found))
    served timestamp unset request (some (service, url_matches)) = answered timestamp request (
        handle service (record { http = request; url_matches = url_matches })
          (unset_response unset))

    -- `HandleConnection`; `unset` is what stands in the status that no one has written
    unfoldable pub handle_connection :
        Text → ℕ → List (ServiceItem regex Service) → Request → Option Response
    unfolding get_service make_response send_response
    handle_connection timestamp unset items request =
        served timestamp unset request (get_service regex Service (b'/' ∷ request.url.path) items)
