-- ===== src/Api/Users.antt =====
-- The handlers of internal/api/user_reads.go and `userBoards` of internal/api/user_boards.go.
pub mod Laws
use wekango.Base.{
  ℕ, String, Bool, true, false, not, ◌&&◌, ◌||◌, Option, none, some, List, [], ◌∷◌, map, ◌==◌, eqb,
  if◌then◌else◌,
}
use wekango.Base.Exec.{
  ◌then_on◌, Result, ok, err, Exec, fail, pure, lift, or_else, attempt, ◌>>=◌, ◌>>◌,
}
use wekango.Base.Int.{pos}
use wekango.Bson.{
  Value, null, undef, bool, int, double, str, obj, doc_m, Fields, end, fields, doc_of,
}
use wekango.Bson.Fetch.{find, get, put, remove, as_map, as_array, board_read_fields}
use wekango.Bson.Truth.{double_is_nan, double_is_zero}
use wekango.Bson.Json.{Format, json_document}
use wekango.Env.{Error, no_documents, failure as other_error, FindOptions, Floats}
use wekango.Api.Service.{Service, Request, Response, User, Handler, reply}
use wekango.Api.Errors.{
  BoardReadError, board_read_internal, board_read_forbidden, board_read_public_error,
}
use wekango.Api.Access.{board_read_user, board_read_admin, by_id}
use wekango.Api.Boards.{sorted, array_of, visible_summaries}

-- `==` on `float64`: the patterns agree, or both are zeros; a NaN equals nothing.
abbrev pub double_eq : ℕ → ℕ → Bool
double_eq x y =
    not (double_is_nan x)
    && not (double_is_nan y)
    && (eqb x y || (double_is_zero x && double_is_zero y))

-- The function literal `number` of `userReadStrictID`.
abbrev number_of : Floats → Value → Option ℕ
number_of f (int n) = some (f.of_int n)
number_of f (double x) = some x
number_of f _ = none

abbrev same_number : Option ℕ → Option ℕ → Bool
same_number (some x) (some y) = double_eq y x
same_number _ _ = false

abbrev strict_id : Floats → Value → Value → Bool
strict_id f null null = true
strict_id f (str t) (str u) = u == t
strict_id f (bool true) (bool c) = c
strict_id f (bool false) (bool c) = not c
strict_id f (int n) v = same_number (number_of f (int n)) (number_of f v)
strict_id f (double x) v = same_number (some x) (number_of f v)
strict_id f _ _ = false

abbrev strict_found : Floats → Value → Option Value → Bool
strict_found f id none = false
strict_found f id (some v) = strict_id f id v

-- `userReadStrictID`
unfoldable pub user_read_strict_id : Floats → Fields → Value → Bool
unfolding find
user_read_strict_id f member id = strict_found f id (find "userId" member)

abbrev or_nil : Option Fields → Fields
or_nil none = end
or_nil (some d) = d

-- `userReadMemberMap`, whose nil map the caller only reads from.
abbrev pub user_read_member_map : Value → Fields
user_read_member_map v = or_nil (as_map v)

-- The inner loop of `userReadMemberships`: the first member whose id is strictly equal, an error at a
-- null or undefined entry before it, and an error if there is none.
unfoldable pub first_member : Floats → Value → List Value → Result BoardReadError Fields
unfolding user_read_strict_id as_map
first_member f id [] = err board_read_internal
first_member f id (null ∷ rest) = err board_read_internal
first_member f id (undef ∷ rest) = err board_read_internal
first_member f id (raw ∷ rest) =
    if user_read_strict_id f (user_read_member_map raw) id
    then ok (user_read_member_map raw)
    else first_member f id rest

abbrev pub members_array : Option (List Value) → Result BoardReadError (List Value)
members_array none = err board_read_internal
members_array (some members) = ok members

-- The copy of a membership: all but the user id, and the board's id.
abbrev pub membership : Fields → Fields → Fields
membership board found = put "boardId" (get "_id" board) (remove "userId" found)

-- The outer loop.
unfoldable pub memberships : Floats → Value → List Fields → Result BoardReadError (List Fields)
unfolding first_member get put remove
memberships f id [] = ok []
memberships f id (board ∷ boards) =
    let later = memberships f id boards in
    members_array (as_array (get "members" board)) then_on λ members.
    first_member f id members then_on λ found.
    later then_on λ rest. ok (membership board found ∷ rest)

-- The answers of `selfUser` and `userByID`.
abbrev pub self_answer : Format → List Fields → Fields → Response
self_answer format boards d =
    reply 200
      (json_document format (obj doc_m (put "boards" (array_of boards) (remove "services" d))))

abbrev pub admin_answer : Format → List Fields → Fields → Response
admin_answer format boards d = reply 200 (
    json_document format
      (obj doc_m (remove "sessionData" (remove "services" (put "boards" (array_of boards) d)))))

module _ (s : Service) where
  abbrev internal_error : Error → BoardReadError
  internal_error e = board_read_internal

  abbrev membership_projection : FindOptions
  membership_projection = record {
    order = end;
    projection = fields (("_id", int (pos 1)) ∷ ("members", int (pos 1)) ∷ []);
  }

  unfoldable pub user_read_memberships : Value → Exec s.World BoardReadError (List Fields)
  unfolding memberships
  user_read_memberships id = do
    boards ← or_else internal_error (
        s.find "boards" (fields (("type", str "board") ∷ ("members.userId", id) ∷ []))
          membership_projection)
    lift (memberships s.floats id boards)

  abbrev pub public_internal : Error → Response
  public_internal e = board_read_public_error board_read_internal

  abbrev pub self_user_of : User → Handler s Response
  self_user_of u = do
    data_found ← or_else public_internal (s.find_one "users" (by_id u.id) end)
    boards ← or_else board_read_public_error (user_read_memberships (str u.id))
    pure (self_answer s.format boards data_found)

  unfoldable pub self_user : Request → Handler s Response
  unfolding board_read_user user_read_memberships put remove json_document
  self_user r = do u ← or_else board_read_public_error (board_read_user s r); self_user_of u

  unfoldable pub users_list : Request → Handler s Response
  unfolding board_read_admin board_read_fields json_document
  users_list r = do
    board_read_admin s r
    users ← or_else public_internal (
        s.find "users" end (record {
          order = end;
          projection = fields (("_id", int (pos 1)) ∷ ("username", int (pos 1)) ∷ []);
        }))
    pure (
        reply 200 (
          json_document s.format
            (array_of (map (λ d. board_read_fields d ("_id" ∷ "username" ∷ [])) users))))

  -- The second lookup is made only if the first found nothing.
  abbrev pub by_name : String → Result Error Fields → Exec s.World Response Fields
  by_name id (ok d) = pure d
  by_name id (err no_documents) =
      or_else public_internal (s.find_one "users" (fields (("username", str id) ∷ [])) end)
  by_name id (err (other_error message)) = fail (board_read_public_error board_read_internal)

  abbrev pub answer_admin : Fields → Handler s Response
  answer_admin d = do
    boards ← or_else board_read_public_error (user_read_memberships (get "_id" d))
    pure (admin_answer s.format boards d)

  abbrev pub find_by_id : String → Handler s Fields
  find_by_id id = do first ← attempt (s.find_one "users" (by_id id) end); by_name id first

  abbrev pub detail : String → Handler s Response
  detail id = do d ← find_by_id id; answer_admin d

  unfoldable pub user_by_id : Request → Handler s Response
  unfolding board_read_admin user_read_memberships get put remove json_document
  user_by_id r = do board_read_admin s r; detail (r.path_value "userID")

  abbrev own_or_admin : User → String → Exec s.World BoardReadError Unit
  own_or_admin u id =
      if not (id == u.id) && not u.is_admin then fail board_read_forbidden else pure tt

  abbrev of_member : String → Bool → Fields
  of_member id active = fields (
      ("archived", bool false)
      ∷ (
        "members",
        doc_of (("$elemMatch", doc_of (("userId", str id) ∷ ("isActive", bool active) ∷ [])) ∷ []),
      )
      ∷ [])

  -- `userBoards`, up to its background report (`record_revoked_board_listing`), which no answer
  -- depends on.
  unfoldable pub user_boards : Request → Handler s Response
  unfolding board_read_user visible_summaries
  user_boards r = do
    u ← or_else board_read_public_error (board_read_user s r)
    let id = r.path_value "userID"
    or_else board_read_public_error (own_or_admin u id)
    boards ← or_else public_internal (s.find "boards" (of_member id true) sorted)
    pure (reply 200 (array_of (visible_summaries boards)))
