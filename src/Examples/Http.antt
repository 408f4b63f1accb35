-- ===== src/Examples/Http.antt =====
-- webcc/common.cc and rest_service_manager.cc at concrete inputs.
use devops_workshop.Http.Message.{Message, blank_message}
use devops_workshop.Http.Dump.{max_dump_size, dump_pieces, quoted}
use devops_workshop.Http.Dump.Bounds.{shown, dump_pieces-quoted}
use devops_workshop.Prelude.{take, ◌≡◌, [], ◌∷◌}
use devops_workshop.Bytes.{codes}

abbrev short_message : Message
short_message = record blank_message { start_line = codes "GET / HTTP/1.1"; content = codes "ab" }

dump_pieces-quoted_example :
    quoted (dump_pieces (λ s. s ∷ []) 4 (codes "> ") short_message)
    ≡ take max_dump_size (shown (λ s. s ∷ []) 4 (codes "ab"))
dump_pieces-quoted_example = dump_pieces-quoted (λ s. s ∷ []) 4 (codes "> ") short_message
