-- ===== src/Http/Response.antt =====
-- webcc/response.h and response.cc: `Response`. The timestamp is the environment's.
use devops_workshop.Boost.{Boost}
use devops_workshop.Http.Globals.{status_line, user_agent}
use devops_workshop.Http.Message.{Message, blank_message, set_header, prepare}
use devops_workshop.Prelude.{ℕ, [], ◌∷◌}
use devops_workshop.Bytes.{Text, codes}

pub record Response : Type 0 where
  pub message : Message
  pub status : ℕ

-- the constructor
abbrev pub new_response : ℕ → Response
new_response status = record { message = blank_message; status = status }

abbrev pub line_or : Text → Text → Text
line_or [] line = line
line_or (c ∷ s) line = c ∷ s

-- `Response::Prepare`
unfoldable pub prepare_response : Boost → Text → Response → Response
unfolding prepare
prepare_response boost timestamp r =
    let started = record (r.message) {
      start_line = line_or r.message.start_line (status_line r.status);
    } in
    let served = set_header boost (codes "Server") user_agent started in
    let dated = set_header boost (codes "Date") timestamp served in
    record r { message = prepare dated }
