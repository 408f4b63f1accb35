-- ===== src/Examples/Forms.antt =====
-- webcc/request.cc and request_parser.cc: a request with two form parts, on its way.
use devops_workshop.Prelude.{ℕ, ◌≡◌, refl, some, [], ◌∷◌, ◌++◌, map, length, false, true}
use devops_workshop.Boost.{all_solid_sound}
use devops_workshop.Bytes.{Text, codes, equal, lacks, lacks_sound, next_line}
use devops_workshop.Numbers.{pos}
use devops_workshop.Http.Headers.{set}
use devops_workshop.Http.Form.{FormPart, prepare_part, set_headers, disposition_text}
use devops_workshop.Http.Form.RoundTrip.{IsQuotable}
use devops_workshop.Http.Message.{blank_message, copy_payload}
use devops_workshop.Http.Request.{Request, prepare_request, create_start_line, part_buffers}
use devops_workshop.Url.Address.{blank}
use devops_workshop.Parser.State.{of_requests, new_parser}
use devops_workshop.Parser.Feed.{parse}
use devops_workshop.Parser.Feed.ReadRequest.{IsSendable}
use devops_workshop.Parser.Feed.Prepared.{parse-prepare_request_form}
use devops_workshop.Parser.Feed.ReadForm.{form_text}
use devops_workshop.Parser.Feed.FormContent.{IsFormRead}
use devops_workshop.Parser.Multipart.{is_boundary, sets_end}
use devops_workshop.Parser.Multipart.Lines.{IsInside}
use devops_workshop.Parser.Multipart.PartWire.{IsEncodable, received}
use devops_workshop.Rest.SentFields.{kept-IsField, word-IsValue}
use devops_workshop.Examples.AsciiBoost.{ascii_boost}
use devops_workshop.Examples.Parser.{small_env}
use devops_workshop.Examples.Exchange.{images_request, images_request-IsSendable, or_blank}

abbrev two_lines : Text
two_lines = codes "one" ++ 13 ∷ 10 ∷ codes "two"

abbrev note : FormPart
note = record {
  name = codes "note";
  file_name = [];
  media_type = codes "text/plain";
  headers = [];
  body = two_lines;
}

abbrev picture : FormPart
picture = record {
  name = codes "photo";
  file_name = codes "me.png";
  media_type = [];
  headers = [];
  body = codes "pixels";
}

abbrev form_request : Request
form_request = record images_request {
  message = blank_message;
  form_parts = note ∷ picture ∷ [];
  boundary = codes "xyz";
}

form_request-IsSendable : IsSendable form_request
form_request-IsSendable =
    let s = images_request-IsSendable in
    record {
      method_ne = s.method_ne;
      one_line = s.one_line;
      method_space = s.method_space;
      target_space = s.target_space;
      target_percent = s.target_percent;
      path_mark = s.path_mark;
      target_scheme = s.target_scheme;
    }

line-IsInside :
    (line : Text)
    → next_line (line ++ 13 ∷ 10 ∷ []) ≡ some (line, [])
    → is_boundary (codes "xyz") line ≡ false
    → sets_end (codes "xyz") line ≡ false
    → IsInside (codes "xyz") line
line-IsInside line o b e = record { one_line = o; no_boundary = b; no_end = e }

word-IsQuotable : (s : Text) → lacks 34 s ≡ true → lacks b';' s ≡ true → IsQuotable s
word-IsQuotable s q c = record { quote = lacks_sound 34 s q; semicolon = lacks_sound b';' s c }

note-IsEncodable : IsEncodable (codes "xyz") note
unfolding next_line is_boundary sets_end
note-IsEncodable = record {
  fresh = refl;
  name_quotable = word-IsQuotable (codes "note") refl refl;
  file_quotable = word-IsQuotable [] refl refl;
  name_line = lacks_sound 13 (codes "note") refl;
  file_line = tt;
  type_line = lacks_sound 13 (codes "text/plain") refl;
  lines = codes "one" ∷ codes "two" ∷ [];
  body_lines = refl;
  body_inside = (
    line-IsInside (codes "one") refl refl refl,
    (line-IsInside (codes "two") refl refl refl, tt),
  );
  body_ne = λ e. cc;
}

picture-IsEncodable : IsEncodable (codes "xyz") picture
unfolding next_line is_boundary sets_end
picture-IsEncodable = record {
  fresh = refl;
  name_quotable = word-IsQuotable (codes "photo") refl refl;
  file_quotable = word-IsQuotable (codes "me.png") refl refl;
  name_line = lacks_sound 13 (codes "photo") refl;
  file_line = lacks_sound 13 (codes "me.png") refl;
  type_line = tt;
  lines = codes "pixels" ∷ [];
  body_lines = refl;
  body_inside = (line-IsInside (codes "pixels") refl refl refl, tt);
  body_ne = λ e. cc;
}

abbrev form_sent : Request
form_sent = or_blank (prepare_request ascii_boost (codes "id") form_request)

form_prepared : prepare_request ascii_boost (codes "id") form_request ≡ some form_sent
unfolding prepare_request create_start_line equal
form_prepared = refl

abbrev form_size : ℕ
form_size = length (form_text small_env (codes "xyz") form_request.form_parts)

form_room : small_env.can_reserve form_size ≡ true
unfolding part_buffers prepare_part set_headers disposition_text set equal
form_room = refl

parse-prepare_request_form_example :
    IsFormRead
      (pos 200, (record blank { path = codes "images" }, codes "POST"))
      (map received (note ∷ picture ∷ []))
      (parse (of_requests small_env) (copy_payload form_sent.message) new_parser)
unfolding equal
parse-prepare_request_form_example =
    parse-prepare_request_form small_env (codes "id") form_request form_sent form_prepared refl refl
      (λ e. cc) form_request-IsSendable (all_solid_sound (codes "xyz") refl) (λ e. cc)
      (note-IsEncodable, (picture-IsEncodable, tt)) tt
      (
        kept-IsField ascii_boost form_size (codes "Host") (codes "localhost")
            (all_solid_sound (codes "Host") refl) (lacks_sound b':' (codes "Host") refl) refl refl
            refl
            (word-IsValue ascii_boost (codes "localhost")
              (all_solid_sound (codes "localhost") refl)),
        tt,
      )
      form_room
