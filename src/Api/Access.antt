-- ===== src/Api/Access.antt =====
-- Who may read a board: `boardReadUser`, `boardReadAccess` and `boardReadAdmin` of
-- internal/api/board_reads.go, and the handler `board` of internal/api/api.go.
pub mod Laws
pub mod Agree
use wekango.Base.{
  String, Bool, true, false, not, ◌&&◌, ◌||◌, Option, none, some, List, [], ◌∷◌, if◌then◌else◌, any,
}
use wekango.Base.Exec.{Result, ok, err, Exec, fail, pure, lift, or_else, ◌>>=◌, ◌>>◌}
use wekango.Bson.{Value, null, str, obj, doc_m, doc_d, Fields, end, fields}
use wekango.Bson.Truth.{truthy}
use wekango.Bson.Fetch.{get, to_map, is_str, is_true, as_array}
use wekango.Bson.Json.{json_document}
use wekango.Env.{Error, no_documents, failure as other_error}
use wekango.Api.Service.{Service, Request, Response, User, Handler, reply, failure}
use wekango.Api.Errors.{
  BoardReadError, board_read_unauthorized, board_read_internal, board_read_forbidden,
  board_read_missing, board_read_public_error,
}
use wekango.Api.Auth.{authenticate}

-- The member as a map: nil for what is no document.
abbrev pub member_map : Value → Fields
member_map (obj doc_d d) = to_map d
member_map (obj doc_m d) = d
member_map _ = end

-- The condition of the loop in `boardReadAccess`.
unfoldable pub may_read : String → Fields → Bool
unfolding truthy get
may_read id member =
    is_str (get "userId" member) id
    && truthy (get "isActive" member)
    && not (truthy (get "isNoComments" member))
    && not (truthy (get "isCommentOnly" member))
    && not (truthy (get "isWorker" member))

-- The loop: an error at a null entry, true at the first member that may read.
unfoldable pub scan_members : String → List Value → Result BoardReadError Bool
scan_members id [] = ok false
scan_members id (null ∷ rest) = err board_read_internal
scan_members id (raw ∷ rest) =
    if may_read id (member_map raw) then ok true else scan_members id rest

abbrev pub members_of : Option (List Value) → Result BoardReadError (List Value)
members_of none = err board_read_internal
members_of (some members) = ok members

abbrev pub board_error : Error → BoardReadError
board_error no_documents = board_read_missing
board_error (other_error message) = board_read_internal

-- The condition of the loop in `board`, which is strict where `may_read` is not.
unfoldable pub may_read_strict : String → Fields → Bool
unfolding get
may_read_strict id member =
    is_str (get "userId" member) id
    && is_true (get "isActive" member)
    && not (is_true (get "isNoComments" member))
    && not (is_true (get "isCommentOnly" member))
    && not (is_true (get "isWorker" member))

abbrev strict_member : String → Value → Bool
strict_member id (obj doc_m d) = may_read_strict id d
strict_member id _ = false

abbrev strict_members : (Value → Value) → String → Option (List Value) → Bool
strict_members json id none = false
strict_members json id (some members) = any (λ raw. strict_member id (json raw)) members

abbrev pub by_id : String → Fields
by_id id = fields (("_id", str id) ∷ [])

module _ (s : Service) where
  unfoldable pub board_read_user : Request → Exec s.World BoardReadError User
  board_read_user r = do
    found ← or_else (λ e. board_read_unauthorized) (authenticate s r)
    pure found.0

  abbrev pub decide_access : User → Bool → Exec s.World BoardReadError Unit
  decide_access u granted = if granted || u.is_admin then pure tt else fail board_read_forbidden

  abbrev pub scan_access : User → List Value → Exec s.World BoardReadError Unit
  scan_access u members = do granted ← lift (scan_members u.id members); decide_access u granted

  abbrev pub board_read_user_access : User → String → Exec s.World BoardReadError Unit
  board_read_user_access u board_id = do
    board ← or_else board_error (s.find_one "boards" (by_id board_id) end)
    members ← lift (members_of (as_array (get "members" board)))
    scan_access u members

  unfoldable pub board_read_access : Request → String → Exec s.World BoardReadError Unit
  unfolding board_read_user scan_members get
  board_read_access r board_id = do u ← board_read_user r; board_read_user_access u board_id

  unfoldable pub board_read_admin : Request → Handler s Unit
  unfolding board_read_user
  board_read_admin r = do
    u ← or_else board_read_public_error (board_read_user r)
    if u.is_admin then pure tt else fail (board_read_public_error board_read_forbidden)

  abbrev board_failure : Error → Response
  board_failure no_documents = failure 404 "NotFound" "Board not found"
  board_failure (other_error message) = failure 500 "InternalServerError" "Internal server error"

  unfoldable pub allowed_strictly : User → Fields → Bool
  unfolding get may_read_strict json_document
  allowed_strictly u board =
      strict_members (json_document s.format) u.id (as_array (get "members" board)) || u.is_admin

  unfoldable pub board : Request → Handler s Response
  unfolding allowed_strictly json_document
  board r = do
    found ← or_else (λ e. failure 401 "Unauthorized" "Unauthorized") (authenticate s r)
    doc ← or_else board_failure (s.find_one "boards" (by_id (r.path_value "boardID")) end)
    if allowed_strictly found.0 doc
        then pure (reply 200 (json_document s.format (obj doc_m doc)))
        else fail (failure 403 "Forbidden" "Forbidden")
