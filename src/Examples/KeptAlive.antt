-- ===== src/Examples/KeptAlive.antt =====
-- webcc/connection.cc: two requests on one connection.
use devops_workshop.Prelude.{◌≡◌, refl, Option, none, some, true}
use devops_workshop.Bytes.{codes, equal, cut, next_line}
use devops_workshop.Numbers.{to_string}
use devops_workshop.Http.Headers.{set}
use devops_workshop.Http.Message.{copy_payload}
use devops_workshop.Http.Request.{prepare_request, create_start_line}
use devops_workshop.Parser.Feed.{parse}
use devops_workshop.Server.KeepAlive.{on_write-on_read}
use devops_workshop.Http.Globals.{split2}
use devops_workshop.Http.Headers as Headers
use devops_workshop.Parser.State.{init, finish}
use devops_workshop.Parser.HeaderLines.{
  parse_headers, headers_loop, take_line, parse_start_line, parse_header_line,
}
use devops_workshop.Parser.Body.{parse_fixed_content}
use devops_workshop.Parser.Feed.{parse_content}
use devops_workshop.Http.Request.{set_url, prepare_parts}
use devops_workshop.Http.Message.{prepare, is_connection_keep_alive}
use devops_workshop.Http.Response.{new_response}
use devops_workshop.Numbers.{stoul}
use devops_workshop.Server.Connection.{
  Action, do_read, on_write, Connection, enqueue, accepted_connection, on_read, start,
}
use devops_workshop.Examples.AsciiBoost.{split_compress, trim, trim_left, ascii_boost}
use devops_workshop.Examples.Parser.{small_env}
use devops_workshop.Examples.Exchange.{
  images_request, images_request-IsWritable, images_sent, images_prepared,
}

abbrev or_accepted : Option (Connection × Action) → Connection
or_accepted none = accepted_connection
or_accepted (some r) = r.0

abbrev images_read : Connection
images_read = or_accepted (
    on_read small_env (codes "now") none (copy_payload images_sent.message)
      (start accepted_connection).0)

images_reads :
    on_read small_env
      (codes "now")
      none
      (copy_payload images_sent.message)
      (start accepted_connection).0
    ≡ some (images_read, enqueue)
unfolding on_read parse parse_headers headers_loop next_line take_line parse_start_line
    split_compress equal parse_content parse_fixed_content finish start init set_url prepare_request
    create_start_line prepare_parts prepare copy_payload set parse_header_line split2 cut trim
    trim_left stoul to_string
images_reads = refl

images_kept : is_connection_keep_alive ascii_boost images_read.parser.request.message ≡ true
unfolding on_read parse parse_headers headers_loop next_line take_line parse_start_line
    split_compress equal parse_content parse_fixed_content finish start init set_url prepare_request
    create_start_line prepare_parts prepare copy_payload set parse_header_line split2 cut trim
    trim_left stoul to_string is_connection_keep_alive Headers.get
images_kept = refl

on_write-on_read_example :
    (d : Connection) × (on_write small_env none
        (record images_read { response = some (new_response 201) })
      ≡ (d, do_read))
    × (e : Connection) × (on_read small_env
          (codes "later")
          none
          (copy_payload images_sent.message)
          d
        ≡ some (e, enqueue))
    × (e.parser.request.method ≡ codes "POST")
    × (e.parser.request.url.path ≡ codes "images")
    × (e.parser.request.message.content ≡ codes "7:ab")
on_write-on_read_example =
    on_write-on_read small_env (codes "id") (codes "now") (codes "later") images_request images_sent
      images_request images_sent images_read (new_response 201) images_prepared
      images_request-IsWritable images_prepared images_request-IsWritable images_reads images_kept
