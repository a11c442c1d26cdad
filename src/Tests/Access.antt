-- ===== src/Tests/Access.antt =====
-- Authentication, access to boards and JSON forms.
use wekango.Base.{true, [], ◌∷◌, ◌≡◌, refl, if◌then◌else◌}
use wekango.Base.Exec.{ok, err}
use wekango.Base.Text.{words, equal_fold}
use wekango.Bson.{Value, str, date, arr_of, obj, doc_d, fields, bool}
use wekango.Base.Int.{pos}
use wekango.Bson.Fetch.{get}
use wekango.Bson.Json.{IsDecoded, IsPlain, json_document, json_document-IsPlain}
use wekango.Api.Errors.{board_read_forbidden}
use wekango.Api.Auth.{authenticate, login_disabled}
use wekango.Api.Access.{board_read_access, may_read, allowed_strictly, board_read_user_access}
use wekango.Api.Access.Laws.{IsGranted, board_read_access-IsGranted}
use wekango.Api.Access.Agree.{board_access_agrees, HasPlainFlags}
use wekango.Tests.Fixture.{service, request, ada, clock, board_doc, member}

granted : (board_read_access service request "b1" clock).0 ≡ ok tt
unfolding board_read_access authenticate words equal_fold login_disabled may_read
granted = refl

board_read_access-IsGranted_example : IsGranted service request "b1" clock
board_read_access-IsGranted_example = board_read_access-IsGranted service request "b1" clock granted

member_fields :
    HasPlainFlags service.format (fields (("userId", str "ada") ∷ ("isActive", bool true) ∷ []))
unfolding get
member_fields = record { user = tt; active = tt; no_comments = tt; comment_only = tt; worker = tt }

board_access_agrees_example :
    (board_read_user_access service ada "b1" clock).0
    ≡ (if allowed_strictly service ada board_doc then ok tt else err board_read_forbidden)
unfolding get
board_access_agrees_example =
    board_access_agrees service ada "b1" board_doc (member ∷ []) clock refl refl (member_fields, tt)

abbrev stored : Value
stored = obj doc_d (fields (("at", date (pos 3)) ∷ ("tags", arr_of (str "x" ∷ [])) ∷ []))

stored-IsDecoded : IsDecoded stored
unfolding IsDecoded
stored-IsDecoded = (tt, ((tt, tt), tt))

json_document-IsPlain_example : IsPlain (json_document service.format stored)
json_document-IsPlain_example = json_document-IsPlain service.format stored stored-IsDecoded
