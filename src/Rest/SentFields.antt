-- ===== src/Rest/SentFields.antt =====
-- webcc/message.cc, response.cc and connection.cc: the fields of a response that is sent are readable.
use devops_workshop.Boost.{Boost, IsSolid, trim-word, all_solid_sound}
use devops_workshop.Http.Globals.{user_agent}
use devops_workshop.Http.Content.{content_type, valid}
use devops_workshop.Http.Headers.{Headers, set}
use devops_workshop.Rest.Service.{RestResponse}
use devops_workshop.Rest.Handler.{connection_text}
use devops_workshop.Parser.Feed.Expected.{IsField, announces}
use devops_workshop.Parser.Feed.FormFields.{solid_line}
use devops_workshop.Parser.Feed.SetFields.{set-IsField, announces-set_other}
use devops_workshop.Prelude.{
  ℕ, ◌≡◌, ◌≢◌, refl, ◌∙◌, Bool, true, false, [], ◌++◌, All, if◌then◌else◌,
}
use devops_workshop.Bytes.{Text, Lacks, codes, equal, lacks_sound}

-- A value that can stand in a field: of one line, without spaces around it.
pub record IsValue (boost : Boost) (value : Text) : Type 0 where
  pub one_line : Lacks 13 value
  pub trimmed : boost.trim value ≡ value

module _ (boost : Boost) where
  open boost use {iequals}

  pub word-IsValue : (s : Text) → All IsSolid s → IsValue boost s
  word-IsValue s h = record { one_line = solid_line s h; trimmed = trim-word boost s h }

  -- A field that the parser only keeps.
  pub kept-IsField :
      (n : ℕ) (key value : Text)
      → All IsSolid key
      → Lacks b':' key
      → iequals key (codes "Content-Length") ≡ false
      → iequals key (codes "Content-Type") ≡ false
      → iequals key (codes "Transfer-Encoding") ≡ false
      → IsValue boost value
      → IsField boost n (key, value)
  kept-IsField n key value s c l t e v = record {
    name_line = solid_line key s;
    value_line = v.one_line;
    name_colon = c;
    name_trimmed = trim-word boost key s;
    value_trimmed = v.trimmed;
    length_is = λ h. cc (h, l);
    type_is = λ h. cc (h, t);
    coding_is = λ h. cc (h, e);
  }

  connection-IsField :
      (n : ℕ) (keep : Bool) → IsField boost n (codes "Connection", connection_text boost keep)
  unfolding equal
  connection-IsField n keep =
      kept-IsField n (codes "Connection") (connection_text boost keep)
        (all_solid_sound (codes "Connection") refl) (lacks_sound b':' (codes "Connection") refl)
        (boost.iequals_fold (codes "Connection") (codes "Content-Length"))
        (boost.iequals_fold (codes "Connection") (codes "Content-Type"))
        (boost.iequals_fold (codes "Connection") (codes "Transfer-Encoding")) (either keep)
    where
      either : (b : Bool) → IsValue boost (connection_text boost b)
      either true = word-IsValue (codes "Keep-Alive") (all_solid_sound (codes "Keep-Alive") refl)
      either false = word-IsValue (codes "Close") (all_solid_sound (codes "Close") refl)

  server-IsField : (n : ℕ) → IsField boost n (codes "Server", user_agent)
  unfolding equal
  server-IsField n =
      kept-IsField n (codes "Server") user_agent (all_solid_sound (codes "Server") refl)
        (lacks_sound b':' (codes "Server") refl)
        (boost.iequals_fold (codes "Server") (codes "Content-Length"))
        (boost.iequals_fold (codes "Server") (codes "Content-Type"))
        (boost.iequals_fold (codes "Server") (codes "Transfer-Encoding"))
        (word-IsValue user_agent (all_solid_sound user_agent refl))

  date-IsField :
      (n : ℕ) (timestamp : Text)
      → IsValue boost timestamp
      → IsField boost n (codes "Date", timestamp)
  unfolding equal
  date-IsField n timestamp v =
      kept-IsField n (codes "Date") timestamp (all_solid_sound (codes "Date") refl)
        (lacks_sound b':' (codes "Date") refl)
        (boost.iequals_fold (codes "Date") (codes "Content-Length"))
        (boost.iequals_fold (codes "Date") (codes "Content-Type"))
        (boost.iequals_fold (codes "Date") (codes "Transfer-Encoding")) v

  -- the fields that a connection adds
  abbrev pub sent_headers : Text → Bool → Headers → Headers
  sent_headers timestamp keep hs = set boost (codes "Date") timestamp (
      set boost (codes "Server") user_agent
        (set boost (codes "Connection") (connection_text boost keep) hs))

  pub sent_headers-IsField :
      (n : ℕ) (timestamp : Text) (keep : Bool) (hs : Headers)
      → IsValue boost timestamp
      → All (IsField boost n) hs
      → All (IsField boost n) (sent_headers timestamp keep hs)
  sent_headers-IsField n timestamp keep hs v a =
      let linked = set boost (codes "Connection") (connection_text boost keep) hs in
      set-IsField boost n (codes "Date") timestamp (set boost (codes "Server") user_agent linked)
        (date-IsField n timestamp v)
        (set-IsField boost n (codes "Server") user_agent linked (server-IsField n) (
          set-IsField boost n (codes "Connection") (connection_text boost keep) hs
            (connection-IsField n keep) a))

  pub sent_headers-announces :
      (timestamp : Text) (keep : Bool) (hs : Headers)
      → announces boost (sent_headers timestamp keep hs) ≡ announces boost hs
  unfolding equal
  sent_headers-announces timestamp keep hs =
      let linked = set boost (codes "Connection") (connection_text boost keep) hs in
      announces-set_other boost (codes "Date") timestamp
        (set boost (codes "Server") user_agent linked)
        (boost.iequals_fold (codes "Date") (codes "Content-Length"))
      ∙ announces-set_other boost (codes "Server") user_agent linked
          (boost.iequals_fold (codes "Server") (codes "Content-Length"))
      ∙ announces-set_other boost (codes "Connection") (connection_text boost keep) hs
          (boost.iequals_fold (codes "Connection") (codes "Content-Length"))

  -- the value of Content-Type that `SetContentType` writes
  abbrev pub type_text : RestResponse → Text
  type_text rest =
      if equal rest.charset []
      then rest.media_type
      else rest.media_type ++ (codes ";charset=" ++ rest.charset)

  -- An answer whose content type, if it has one, can be written and is valid.
  pub record IsTyped (rest : RestResponse) : Type 0 where
    pub value : rest.media_type ≢ [] → IsValue boost (type_text rest)
    pub type_valid : rest.media_type ≢ [] → valid (content_type boost (type_text rest)) ≡ true

  pub type-IsField :
      (n : ℕ) (rest : RestResponse)
      → rest.media_type ≢ []
      → IsTyped rest
      → IsField boost n (codes "Content-Type", type_text rest)
  unfolding equal
  type-IsField n rest ne t = record {
    name_line = lacks_sound 13 (codes "Content-Type") refl;
    value_line = (t.value ne).one_line;
    name_colon = lacks_sound b':' (codes "Content-Type") refl;
    name_trimmed =
        trim-word boost (codes "Content-Type") (all_solid_sound (codes "Content-Type") refl);
    value_trimmed = (t.value ne).trimmed;
    length_is = λ e. cc (e, boost.iequals_fold (codes "Content-Type") (codes "Content-Length"));
    type_is = λ e. t.type_valid ne;
    coding_is = λ e. cc (e, boost.iequals_fold (codes "Content-Type") (codes "Transfer-Encoding"));
  }
