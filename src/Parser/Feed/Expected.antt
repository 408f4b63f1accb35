-- ===== src/Parser/Feed/Expected.antt =====
-- webcc/message.cc: what is asked of a message that is written, for it to be read as it was.
use devops_workshop.Boost.{Boost}
use devops_workshop.Numbers.{ℤ, to_string}
use devops_workshop.Http.Globals.{crlf}
use devops_workshop.Http.Content.{ContentType, content_type, valid}
use devops_workshop.Http.Form.{header_buffers, body_buffer}
use devops_workshop.Http.Headers.{Header, Headers}
use devops_workshop.Http.Message.{joined_buffers}
use devops_workshop.Url.Address.{Url}
use devops_workshop.Parser.State.{Kind, of_request, of_response, Parser}
use devops_workshop.Prelude.{ℕ, ◌≡◌, Bool, true, false, if◌then◌else◌, ◌||◌, [], ◌∷◌, ◌++◌}
use devops_workshop.Bytes.{Text, Lacks, codes, equal}

-- The rest of a message behind its start line.
abbrev pub written : Headers → Text → Text
written hs content = joined_buffers (header_buffers hs ++ (crlf ∷ body_buffer content))

-- What the start line of a message gives: the status, or the URL and the method.
abbrev pub Seen : Type 0
Seen = ℤ × (Url × Text)

abbrev pub seen : Parser → Seen
seen p = (p.status, (p.request.url, p.request.method))

-- a content type whose content is read as parts
abbrev pub in_parts : Kind → ContentType → Bool
in_parts of_request c = c.multipart
in_parts of_response c = false

module _ (boost : Boost) where
  open boost use {iequals}

  -- A field that is read as it was written, in a message with content of length `n`: it is of one line,
  -- its name holds no colon, there are no spaces around name and value; a length is `n`, a content
  -- type is valid, and a transfer encoding is not "chunked".
  pub record IsField (n : ℕ) (f : Header) : Type 0 where
    pub name_line : Lacks 13 f.0
    pub value_line : Lacks 13 f.1
    pub name_colon : Lacks b':' f.0
    pub name_trimmed : boost.trim f.0 ≡ f.0
    pub value_trimmed : boost.trim f.1 ≡ f.1
    pub length_is : iequals f.0 (codes "Content-Length") ≡ true → f.1 ≡ to_string n
    pub type_is : iequals f.0 (codes "Content-Type") ≡ true → valid (content_type boost f.1) ≡ true
    pub coding_is :
        iequals f.0 (codes "Transfer-Encoding") ≡ true → equal f.1 (codes "chunked") ≡ false

  -- some field gives the length
  abbrev pub announces : Headers → Bool
  announces [] = false
  announces (h ∷ hs) = iequals h.0 (codes "Content-Length") || announces hs

  -- the content type that the fields of a message leave, from the one that is there
  abbrev pub declared : ContentType → Headers → ContentType
  declared c [] = c
  declared c (h ∷ hs) =
      declared (if iequals h.0 (codes "Content-Type") then content_type boost h.1 else c) hs
