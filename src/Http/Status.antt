-- ===== src/Http/Status.antt =====
-- webcc/globals.h: the response codes of `Status`.
use devops_workshop.Prelude.{ℕ}

abbrev pub ok : ℕ
ok = 200

abbrev pub created : ℕ
created = 201

abbrev pub accepted : ℕ
accepted = 202

abbrev pub no_content : ℕ
no_content = 204

abbrev pub not_modified : ℕ
not_modified = 304

abbrev pub bad_request : ℕ
bad_request = 400

abbrev pub not_found : ℕ
not_found = 404

abbrev pub internal_server_error : ℕ
internal_server_error = 500

abbrev pub not_implemented : ℕ
not_implemented = 501

abbrev pub service_unavailable : ℕ
service_unavailable = 503
