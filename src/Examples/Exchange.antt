-- ===== src/Examples/Exchange.antt =====
-- webcc/request.cc, server.cc and FaceDetectionService.cpp: a POST with JSON, on its way.
use devops_workshop.Prelude.{
  false, sym, ap, ◌∙◌, ◌≡◌, refl, Option, none, some, [], ◌∷◌, length, true,
}
use devops_workshop.Boost.{all_solid_sound}
use devops_workshop.Bytes.{codes, equal, cut_on, strip, lacks_sound, cut}
use devops_workshop.Numbers.{pos, to_string}
use devops_workshop.Http.Message.{blank_message, copy_payload}
use devops_workshop.Http.Request.{Request, blank_request, prepare_request, create_start_line}
use devops_workshop.Http.Response.{Response}
use devops_workshop.Url.Address.{blank}
use devops_workshop.Parser.State.{of_requests, of_responses, new_parser}
use devops_workshop.Parser.HeaderLines.StatusLine.{reported}
use devops_workshop.Parser.Feed.{parse}
use devops_workshop.Parser.Feed.FormFields.{length-IsField}
use devops_workshop.Parser.Feed.ReadRequest.{IsSendable}
use devops_workshop.Parser.Feed.Prepared.{parse-prepare_request}
use devops_workshop.Parser.Feed.WholeContent.{IsRead}
use devops_workshop.Rest.Service.{RestResponse, unset_response}
use devops_workshop.Rest.SentFields.{kept-IsField, word-IsValue}
use devops_workshop.FaceDetection.{post, json_string_to_image, string_to_json, json_to_image}
use devops_workshop.FaceDetection.Routes.{images}
use devops_workshop.FaceDetection.Served.{Steps, post_served}
use devops_workshop.Server.System.{System, Step, reading, writing, perform, Reach}
use devops_workshop.Server.Connection.{Connection, enqueue, on_read}
use devops_workshop.Rest.Handler.{handle_connection}
use devops_workshop.Server.Workers.{waiting}
use devops_workshop.Client.Builder.{Builder, new_builder, query, build, add_queries, add_headers}
use devops_workshop.Client.Builder.Query.{HasParameters, parse-build}
use devops_workshop.Url.Address.{init, add_query}
use devops_workshop.Url.Address as Address
use devops_workshop.Url.Query as Query
use devops_workshop.Url.Query.{Parameters}
use devops_workshop.Url.Query.RoundTrip.{IsWritable}
use devops_workshop.Parser.Feed.Prepared as Prepared
use devops_workshop.Examples.Decide.{all_bytes_sound}
use devops_workshop.Examples.AsciiBoost.{ascii_boost, trim_left}
use mathlib.Core.Path.{subst}
use devops_workshop.Examples.Parser.{small_env}
use devops_workshop.Examples.Rest.{prefix_regex, small_library}

abbrev pub images_request : Request
images_request = record blank_request {
  message = record blank_message {
    content = codes "7:ab";
    headers = (codes "Content-Length", to_string 4) ∷ [];
  };
  method = codes "POST";
  url = record blank { host = codes "localhost"; path = codes "images" };
}

pub images_request-IsSendable : IsSendable images_request
unfolding cut_on strip
images_request-IsSendable = record {
  method_ne = λ e. cc;
  one_line = lacks_sound 13 (codes "POST /images HTTP/1.1") refl;
  method_space = lacks_sound b' ' (codes "POST") refl;
  target_space = lacks_sound b' ' (codes "/images") refl;
  target_percent = lacks_sound b'%' (codes "/images") refl;
  path_mark = lacks_sound b'?' (codes "images") refl;
  target_scheme = refl;
}

pub images_request-IsWritable : Prepared.IsWritable small_env images_request
unfolding equal
images_request-IsWritable = record {
  no_line = refl;
  no_parts = refl;
  sendable = images_request-IsSendable;
  host_field =
      kept-IsField ascii_boost 4 (codes "Host") (codes "localhost")
        (all_solid_sound (codes "Host") refl) (lacks_sound b':' (codes "Host") refl) refl refl refl
        (word-IsValue ascii_boost (codes "localhost") (all_solid_sound (codes "localhost") refl));
  fields = (length-IsField ascii_boost 4, tt);
  announced = λ e. cc;
  no_form = refl;
  room = refl;
}

abbrev pub or_blank : Option Request → Request
or_blank none = blank_request
or_blank (some r) = r

abbrev pub images_sent : Request
images_sent = or_blank (prepare_request ascii_boost (codes "id") images_request)

pub images_prepared : prepare_request ascii_boost (codes "id") images_request ≡ some images_sent
unfolding prepare_request create_start_line equal
images_prepared = refl

parse-prepare_request_example :
    IsRead
      (pos 200, (record blank { path = codes "images" }, codes "POST"))
      (codes "7:ab")
      (parse (of_requests small_env) (copy_payload images_sent.message) new_parser)
parse-prepare_request_example =
    parse-prepare_request small_env (codes "id") images_request images_sent images_prepared
      images_request-IsWritable

abbrev or_unset : Option RestResponse → RestResponse
or_unset none = unset_response 0
or_unset (some r) = r

abbrev images_answer : RestResponse
images_answer = or_unset (post small_library 5 (codes "7:ab") (unset_response 0))

images_answered : post small_library 5 (codes "7:ab") (unset_response 0) ≡ some images_answer
unfolding post json_string_to_image string_to_json json_to_image equal cut
images_answered = refl

images_room : small_env.can_reserve (length images_answer.content) ≡ true
unfolding post json_string_to_image string_to_json json_to_image equal cut
images_room = refl

abbrev ExchangeStep : System → System → Type 0
ExchangeStep = Step small_env prefix_regex (images ascii_boost prefix_regex small_library 5)

post_served_example :
    (s : System) × Reach small_env prefix_regex
      (images ascii_boost prefix_regex small_library 5)
      (waiting ∷ [])
      s
    × (s.pending 0 ≡ some reading)
    × (c : Connection) × (on_read small_env
          (codes "now")
          none
          (copy_payload images_sent.message)
          (s.connections 0)
        ≡ some (c, enqueue))
    × ExchangeStep s (perform 0 (c, enqueue) s)
    × (t : System) × Steps small_env prefix_regex small_library 5 [] (perform 0 (c, enqueue) s) t
    × (t.pending 0 ≡ some writing)
    × ((t.connections 0).parser ≡ c.parser)
    × (a : Response) × ((t.connections 0).response ≡ some a)
    × (handle_connection ascii_boost prefix_regex
          (codes "now")
          0
          (images ascii_boost prefix_regex small_library 5)
          c.parser.request
        ≡ some a)
    × IsRead
        (pos (reported images_answer.status), (blank, []))
        images_answer.content
        (parse (of_responses small_env) (copy_payload a.message) new_parser)
post_served_example =
    post_served small_env prefix_regex small_library 5 [] (codes "id") (codes "now") 0
      images_request images_sent images_answer images_prepared images_request-IsWritable refl refl
      images_answered (word-IsValue ascii_boost (codes "now") (all_solid_sound (codes "now") refl))
      images_room

abbrev asked : Builder
asked =
    query (codes "id") (codes "ab")
      (record new_builder { method = codes "GET"; url = codes "http://localhost/images" })

abbrev one_parameter : Parameters
one_parameter = (codes "id", codes "ab") ∷ []

id-IsWritable : IsWritable (codes "id", codes "ab")
id-IsWritable = record {
  key_ne = λ e. cc;
  key_eq = lacks_sound b'=' (codes "id") refl;
  key_amp = lacks_sound b'&' (codes "id") refl;
  value_amp = lacks_sound b'&' (codes "ab") refl;
  key_bytes = all_bytes_sound (codes "id") refl;
  value_bytes = all_bytes_sound (codes "ab") refl;
}

no_query : (init ascii_boost (codes "http://localhost/images") true false blank).query ≡ []
unfolding init Address.parse trim_left cut cut_on strip
no_query = refl

-- the request that is built
abbrev asking : Request
asking = record blank_request {
  method = codes "GET";
  url = record blank {
    scheme = codes "http";
    host = codes "localhost";
    path = codes "images";
    query = codes "id=ab";
  };
}

built : build ascii_boost asked ≡ asking
unfolding build add_queries add_headers add_query init Address.parse trim_left cut cut_on strip
    equal
built = refl

asking-IsWritable : Prepared.IsWritable small_env asking
unfolding equal cut_on strip
asking-IsWritable = record {
  no_line = refl;
  no_parts = refl;
  sendable = record {
    method_ne = λ e. cc;
    one_line = lacks_sound 13 (codes "GET /images?id=ab HTTP/1.1") refl;
    method_space = lacks_sound b' ' (codes "GET") refl;
    target_space = lacks_sound b' ' (codes "/images?id=ab") refl;
    target_percent = lacks_sound b'%' (codes "/images?id=ab") refl;
    path_mark = lacks_sound b'?' (codes "images") refl;
    target_scheme = refl;
  };
  host_field =
      kept-IsField ascii_boost 0 (codes "Host") (codes "localhost")
        (all_solid_sound (codes "Host") refl) (lacks_sound b':' (codes "Host") refl) refl refl refl
        (word-IsValue ascii_boost (codes "localhost") (all_solid_sound (codes "localhost") refl));
  fields = tt;
  announced = λ e. refl;
  no_form = refl;
  room = refl;
}

abbrev asking_sent : Request
asking_sent = or_blank (prepare_request ascii_boost (codes "id") asking)

asking_prepared : prepare_request ascii_boost (codes "id") asking ≡ some asking_sent
unfolding prepare_request create_start_line equal
asking_prepared = refl

parse-build_example :
    HasParameters small_env one_parameter
      (parse (of_requests small_env) (copy_payload asking_sent.message) new_parser)
unfolding Query.has
parse-build_example =
    parse-build small_env (codes "id") asked one_parameter asking_sent refl no_query
      (id-IsWritable, tt) (refl, tt)
      (subst (Prepared.IsWritable small_env) (sym built) asking-IsWritable)
      (ap (prepare_request ascii_boost (codes "id")) built ∙ asking_prepared)
