-- ===== src/Api/Access/Agree.antt =====
-- The two access checks, `boardReadAccess` and the one written out in `board`, compared.
use wekango.Base.{
  String, List, [], ◌∷◌, some, arith, ◌≡◌, refl, ap, ◌==◌, Bool-cases, inl, inr, All, if◌then◌else◌,
  sym, ◌∙◌,
}
use wekango.Base.Exec.{ok, err}
use wekango.Bson.{Value, null, bool, str, obj, doc_d, doc_m, go_map, Fields, end, field}
use wekango.Bson.Truth.{truthy}
use wekango.Bson.Fetch.{find, get, put, put_all, to_map, is_str, is_true, as_array}
use wekango.Bson.Json.{Format, json_document, json_fields}
use wekango.Api.Service.{Service, User}
use wekango.Api.Errors.{board_read_forbidden}
use wekango.Api.Access.{
  member_map, may_read, may_read_strict, strict_member, strict_members, scan_members, by_id,
  allowed_strictly, board_read_user_access,
}

module _ (format : Format) where
  json_fields-put :
      (k : String) (v : Value) (d : Fields)
      → json_fields format (put k v d) ≡ put k (json_document format v) (json_fields format d)
  unfolding json_document put
  json_fields-put k v end = refl
  json_fields-put k v (field j w d) = elim (Bool-cases (j == k)) [
    | inl same ↦ rw same
    | inr differ ↦ rw differ (ap (field j (json_document format w)) (json_fields-put k v d))
  ]

  json_fields-put_all :
      (acc d : Fields)
      → json_fields format (put_all acc d) ≡ put_all (json_fields format acc) (json_fields format d)
  unfolding json_document put_all
  json_fields-put_all acc end = refl
  json_fields-put_all acc (field k v d) =
      json_fields-put_all (put k v acc) d
      ∙ ap (λ x. put_all x (json_fields format d)) (json_fields-put k v acc)

  json_fields-to_map : (d : Fields) → to_map (json_fields format d) ≡ json_fields format (to_map d)
  unfolding json_document to_map
  json_fields-to_map d = sym (json_fields-put_all end d)

  get-json_fields :
      (k : String) (d : Fields) → get k (json_fields format d) ≡ json_document format (get k d)
  unfolding json_document get find
  get-json_fields k end = refl
  get-json_fields k (field j v d) = elim (Bool-cases (j == k)) [
    | inl same ↦ rw same
    | inr differ ↦ rw differ (get-json_fields k d)
  ]

  -- A flag as the program stores it: absent, null or a Boolean.
  abbrev pub IsFlag : Value → Type 0
  IsFlag null = Unit
  IsFlag (bool b) = Unit
  IsFlag _ = ⊥

  -- A user id as the program stores it.
  abbrev pub IsName : Value → Type 0
  IsName null = Unit
  IsName (str t) = Unit
  IsName _ = ⊥

  is_true-json : (v : Value) → IsFlag v → is_true (json_document format v) ≡ truthy v
  unfolding json_document truthy
  is_true-json null h = refl
  is_true-json (bool b) h = refl
  is_true-json _ h = absurd h

  is_str-json :
      (v : Value) (id : String) → IsName v → is_str (json_document format v) id ≡ is_str v id
  unfolding json_document
  is_str-json null id h = refl
  is_str-json (str t) id h = refl
  is_str-json _ id h = absurd h

  -- The four flags and the user id of a member are as the program stores them.
  pub record HasPlainFlags (member : Fields) : Type 0 where
    pub user : IsName (get "userId" member)
    pub active : IsFlag (get "isActive" member)
    pub no_comments : IsFlag (get "isNoComments" member)
    pub comment_only : IsFlag (get "isCommentOnly" member)
    pub worker : IsFlag (get "isWorker" member)

  -- A member entry: a document with such flags.
  abbrev pub IsMember : Value → Type 0
  IsMember (obj doc_d d) = HasPlainFlags (to_map d)
  IsMember (obj doc_m d) = HasPlainFlags d
  IsMember _ = ⊥

  may_read-agrees :
      (id : String) (d : Fields)
      → HasPlainFlags d
      → may_read_strict id (json_fields format d) ≡ may_read id d
  unfolding may_read may_read_strict
  may_read-agrees id d h = cc (
    get-json_fields "userId" d,
    get-json_fields "isActive" d,
    get-json_fields "isNoComments" d,
    get-json_fields "isCommentOnly" d,
    get-json_fields "isWorker" d,
    is_str-json (get "userId" d) id h.user,
    is_true-json (get "isActive" d) h.active,
    is_true-json (get "isNoComments" d) h.no_comments,
    is_true-json (get "isCommentOnly" d) h.comment_only,
    is_true-json (get "isWorker" d) h.worker,
  )

  strict_member-agrees :
      (id : String) (raw : Value)
      → IsMember raw
      → strict_member id (json_document format raw) ≡ may_read id (member_map raw)
  unfolding json_document
  strict_member-agrees id (obj doc_d d) h =
      rw (json_fields-to_map d) (may_read-agrees id (to_map d) h)
  strict_member-agrees id (obj doc_m d) h = may_read-agrees id d h
  strict_member-agrees id (obj go_map d) h = absurd h
  strict_member-agrees id _ h = absurd h

  scan_members-agrees :
      (id : String) (members : List Value)
      → All IsMember members
      → scan_members id members ≡ ok (strict_members (json_document format) id (some members))
  unfolding scan_members
  scan_members-agrees id [] h = refl
  scan_members-agrees id (obj k d ∷ rest) h =
      rw (strict_member-agrees id (obj k d) h.0) (ground (arith, scan_members-agrees id rest h.1))
  scan_members-agrees id (_ ∷ rest) h = absurd h.0

-- On a board whose members are documents with Boolean flags and text ids, the two checks let in the
-- same users: `boardReadAccess`, once the user is known and the board found, succeeds exactly when
-- the check of the single-board handler `board` holds, and answers 403 otherwise.
pub board_access_agrees :
    (s : Service) (u : User) (board_id : String) (doc : Fields) (members : List Value) (w : s.World)
    → (s.find_one "boards" (by_id board_id) end w).0 ≡ ok doc
    → as_array (get "members" doc) ≡ some members
    → All (IsMember s.format) members
    → (board_read_user_access s u board_id w).0
      ≡ (if allowed_strictly s u doc then ok tt else err board_read_forbidden)
unfolding allowed_strictly
board_access_agrees s u board_id doc members w found array plain =
    rw (found, array, scan_members-agrees s.format u.id members plain) (ground arith)
