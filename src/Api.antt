-- ===== src/Api.antt =====
-- The JSON client (ui/src/lib/api.js): one request, its outcome as a value, and the endpoints.
-- `fetch` is not of this code: what it answered is the argument of `settle`.
pub mod Json
pub mod Addresses
pub mod Encode
pub mod Endpoints
pub mod Laws
use restic_golang.Api.Json.{Value, obj, end}
use restic_golang.Base.{
  ℕ, String, Bool, true, false, Option, none, some, List, [], ◌∷◌, if◌then◌else◌, ◌==◌, concat,
  or_text, includes,
}

-- The run that holds a repository, as a `busy` answer names it.
pub record Blocking : Type 0 where
  pub run_id : String
  pub kind : String
  pub job_name : String

-- The fields of an answer's body that the shared code reads.
pub record Body : Type 0 where
  pub code : String
  pub error : String
  pub message : String
  pub run_id : String
  pub run_kind : String
  pub repo_name : String
  pub blocking_run : Option Blocking

abbrev pub empty_body : Body
empty_body = record {
  code = "";
  error = "";
  message = "";
  run_id = "";
  run_kind = "";
  repo_name = "";
  blocking_run = none;
}

-- `body` is `none` where the server answered the JSON value `null`.
pub record Response : Type 0 where
  pub status : ℕ
  pub ok : Bool
  pub body : Option Body

-- The first argument of `fetch` and what `opt` holds; a `payload` also sets the content type.
pub record Request : Type 0 where
  pub method : String
  pub url : String
  pub payload : Option Value

-- What `fetch` settles with: it throws, or it answers. `json` and `body_text` are `none` where
-- reading the body as such is rejected.
pub data Fetched : Type 0 where
  threw : String → Fetched
  answered :
      (status : ℕ) (ok : Bool) (content_type status_text : String) (json : Option (Option Body))
      (body_text : Option String)
      → Fetched

unfoldable pub parse_json : Option (Option Body) → Option Body
parse_json none = some empty_body
parse_json (some b) = b

unfoldable pub parse_text : Option String → String → String
parse_text none status_text = status_text
parse_text (some t) status_text = or_text t status_text

-- The value that `req` resolves to.
unfoldable pub settle : Fetched → Response
unfolding parse_json parse_text
settle (threw message) = record {
  status = 0;
  ok = false;
  body = some (record empty_body {
    code = "network";
    error = concat ("Could not reach the app: " ∷ message ∷ []);
  });
}
settle (answered status ok content_type status_text json body_text) = record {
  status = status;
  ok = ok;
  body =
      if includes content_type "application/json"
      then parse_json json
      else some (record empty_body { error = parse_text body_text status_text });
}

abbrev pub get : String → Request
get u = record { method = "GET"; url = u; payload = none }

-- `b === undefined ? {} : b`
abbrev pub post : String → Option Value → Request
post u none = record { method = "POST"; url = u; payload = some (obj end) }
post u (some b) = record { method = "POST"; url = u; payload = some b }

abbrev pub put : String → Value → Request
put u b = record { method = "PUT"; url = u; payload = some b }

abbrev pub del : String → Request
del u = record { method = "DELETE"; url = u; payload = none }

unfoldable pub message_of : Option Body → String
message_of none = ""
message_of (some b) = or_text b.error b.message

unfoldable pub error_of : Response → String → String
unfolding message_of
error_of res fallback = or_text (message_of res.body) fallback
