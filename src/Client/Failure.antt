-- ===== src/Client/Failure.antt =====
-- webcc/globals.cc: `DescribeError`, and the message of an `Exception`.
use devops_workshop.Client.{
  Error, no_error, schema_error, host_resolve_error, endpoint_connect_error, socket_read_error,
  socket_write_error, http_error, handshake_error, file_io_error,
}
use devops_workshop.Prelude.{Bool, true, false, [], ◌∷◌, ◌++◌}
use devops_workshop.Bytes.{Text, codes}

-- `DescribeError`
unfoldable pub describe_error : Error → Text
describe_error schema_error = codes "Schema error"
describe_error host_resolve_error = codes "Host resolve error"
describe_error endpoint_connect_error = codes "Endpoint connect error"
describe_error handshake_error = codes "Handshake error"
describe_error socket_read_error = codes "Socket read error"
describe_error socket_write_error = codes "Socket write error"
describe_error http_error = codes "HTTP error"
describe_error file_io_error = codes "File IO error"
describe_error no_error = []

abbrev pub details_text : Text → Text
details_text [] = []
details_text (c ∷ s) = codes " (" ++ ((c ∷ s) ++ codes ")")

abbrev pub timeout_text : Bool → Text
timeout_text true = codes " (timeout)"
timeout_text false = []

-- `Exception::Exception`: what `what` returns
unfoldable pub exception_text : Error → Text → Bool → Text
unfolding describe_error
exception_text error details timeout =
    (describe_error error ++ details_text details) ++ timeout_text timeout
