-- ===== src/Api/Errors.antt =====
-- `boardReadError` and its three answers, internal/api/board_reads.go.
use Prim.Native.String.{len}
use wekango.Base.{ℕ, String, true, [], ◌∷◌, eqb, if◌then◌else◌}
use wekango.Base.Text.{◌⊕◌}
use wekango.Base.Decimal.{decimal}
use wekango.Base.Int.{pos}
use wekango.Bson.{bool, int, str, doc_of}
use wekango.Api.Service.{Response, html, reply}

pub record BoardReadError : Type 0 where
  pub status : ℕ
  pub name : String
  pub reason : String

abbrev pub board_read_unauthorized : BoardReadError
board_read_unauthorized = record { status = 401; name = "Unauthorized"; reason = "Unauthorized" }

abbrev pub board_read_internal : BoardReadError
board_read_internal = record {
  status = 500;
  name = "InternalServerError";
  reason = "Internal server error";
}

abbrev pub board_read_forbidden : BoardReadError
board_read_forbidden = record { status = 403; name = "Forbidden"; reason = "Forbidden" }

abbrev pub board_read_missing : BoardReadError
board_read_missing = record { status = 404; name = "NotFound"; reason = "Board not found" }

abbrev pub board_read_public_error : BoardReadError → Response
board_read_public_error e = reply e.status (doc_of (("error", str e.reason) ∷ []))

abbrev pub board_read_legacy_error : BoardReadError → Response
board_read_legacy_error e =
    if eqb e.status 500
    then reply 200 (doc_of [])
    else reply 200 (
        doc_of (
          ("isClientSafe", bool true)
          ∷ ("error", str e.name)
          ∷ ("reason", str e.reason)
          ∷ ("message", str (e.reason ⊕ " [" ⊕ e.name ⊕ "]"))
          ∷ ("errorType", str "Meteor.Error")
          ∷ ("statusCode", int (pos e.status))
          ∷ []))

-- `http.StatusText` at the four statuses above; none holds a character that HTML escapes.
abbrev status_text : ℕ → String
status_text status =
    if eqb status 401
    then "Unauthorized"
    else if eqb status 403
    then "Forbidden"
    else if eqb status 404
    then "Not Found"
    else if eqb status 500
    then "Internal Server Error"
    else ""

abbrev error_page : ℕ → String
error_page status =
    "<!DOCTYPE html>\n<html lang=\"en\">\n<head>\n<meta charset=\"utf-8\">\n<title>Error</title>\n</head>\n<body>\n<pre>"
    ⊕ status_text status
    ⊕ "</pre>\n</body>\n</html>\n"

unfoldable pub board_read_card_error : BoardReadError → Response
unfolding decimal
board_read_card_error e = record {
  status = e.status;
  headers =
      ("Content-Type", "text/html; charset=utf-8")
      ∷ ("Content-Security-Policy", "default-src 'none'")
      ∷ ("X-Content-Type-Options", "nosniff")
      ∷ ("Content-Length", decimal (len (error_page e.status)))
      ∷ [];
  body = html (error_page e.status);
}
