-- ===== src/Api/Users/Laws.antt =====
-- What the user handlers never answer with, and which membership they report.
use wekango.Base.{
  String, true, List, [], ◌∷◌, none, arith, ◌≡◌, refl, eq_refl, ◌==◌, if◌then◌else◌, Bool-cases,
  inl, inr,
}
use wekango.Base.Exec.{
  ok-injective, then_on-eq-ok, ok, >>=-eq-ok, or_else, or_else-eq-ok, pure, fail,
}
use mathlib.Core.Path.{subst}
use wekango.Bson.{Value, null, undef, str, obj, doc_m, Fields, end, field}
use wekango.Bson.Fetch.{find, get, as_array, put, remove, find-put, find-remove}
use wekango.Bson.Json.{Format, json_document, json_fields}
use wekango.Env.{Floats}
use wekango.Api.Service.{Service, Request, Response, Handler, User, reply}
use wekango.Api.Errors.{board_read_public_error, board_read_forbidden}
use wekango.Api.Access.{board_read_user, board_read_admin, by_id}
use wekango.Api.Access.Laws.{board_read_user-eq-ok}
use wekango.Api.Auth.{authenticate}
use wekango.Api.Boards.{array_of}
use wekango.Api.Users.{
  user_read_strict_id, first_member, memberships, user_read_memberships, self_user, user_by_id,
  detail, find_by_id, answer_admin, self_answer, admin_answer, self_user_of, public_internal,
  membership, members_array,
}

module _ (format : Format) where
  find-json_fields :
      (k : String) (d : Fields) → find k d ≡ none → find k (json_fields format d) ≡ none
  unfolding find json_document
  find-json_fields k end h = refl
  find-json_fields k (field j v d) h = elim (Bool-cases (j == k)) [
    | inl same ↦ cc (rw same at h)
    | inr differ ↦ rw differ (find-json_fields k d (rw differ at h))
  ]

-- A JSON answer of status 200 whose object lacks the key.
pub record Lacks (key : String) (resp : Response) : Type 0 where
  pub object : Fields
  pub answered : resp ≡ reply 200 (obj doc_m object)
  pub lacking : find key object ≡ none

self_answer-Lacks :
    (format : Format) (boards : List Fields) (d : Fields)
    → Lacks "services" (self_answer format boards d)
unfolding json_document
self_answer-Lacks format boards d = record {
  object = json_fields format (put "boards" (array_of boards) (remove "services" d));
  answered = refl;
  lacking =
      find-json_fields format "services" (put "boards" (array_of boards) (remove "services" d)) (
        ground (
          arith,
          find-put "boards" "services" (array_of boards) (remove "services" d),
          find-remove "services" "services" d,
          eq_refl "services",
        ));
}

admin_answer-Lacks :
    (format : Format) (boards : List Fields) (d : Fields)
    → Lacks "services" (admin_answer format boards d)
      × Lacks "sessionData" (admin_answer format boards d)
unfolding json_document
admin_answer-Lacks format boards d =
    let bare = remove "services" (put "boards" (array_of boards) d) in
    let object = json_fields format (remove "sessionData" bare) in
    (
      record {
        object = object;
        answered = refl;
        lacking = find-json_fields format "services" (remove "sessionData" bare) (
            ground (
              arith,
              find-remove "sessionData" "services" bare,
              find-remove "services" "services" (put "boards" (array_of boards) d),
              eq_refl "services",
            ));
      },
      record {
        object = object;
        answered = refl;
        lacking =
            find-json_fields format "sessionData" (remove "sessionData" bare)
              (ground (arith, find-remove "sessionData" "sessionData" bare, eq_refl "sessionData"));
      },
    )

-- The self read never answers with the services of the account, where its tokens and password
-- hashes are, at the top of the object.
pub self_user-Lacks :
    (s : Service) (r : Request) (resp : Response) (w : s.World)
    → (self_user s r w).0 ≡ ok resp
    → Lacks "services" resp
unfolding self_user
self_user-Lacks s r resp w h =
    let (u, known, h₁) =
      >>=-eq-ok (or_else board_read_public_error (board_read_user s r)) (self_user_of s) w h in
    let (d, found, h₂) =
      >>=-eq-ok (or_else (public_internal s) (s.find_one "users" (by_id u.id) end)) _ _ h₁ in
    let (boards, read, h₃) =
      >>=-eq-ok (or_else board_read_public_error (user_read_memberships s (str u.id))) _ _ h₂ in
    subst (Lacks "services") (ok-injective h₃) (self_answer-Lacks s.format boards d)

answer_admin-Lacks :
    (s : Service) (d : Fields) (resp : Response) (w : s.World)
    → (answer_admin s d w).0 ≡ ok resp
    → Lacks "services" resp × Lacks "sessionData" resp
answer_admin-Lacks s d resp w h =
    let (boards, read, same) =
      >>=-eq-ok (or_else board_read_public_error (user_read_memberships s (get "_id" d)))
        (λ bs. pure (admin_answer s.format bs d)) w h in
    let (services, session) = admin_answer-Lacks s.format boards d in
    (
      subst (Lacks "services") (ok-injective same) services,
      subst (Lacks "sessionData") (ok-injective same) session,
    )

-- The request authenticates as an administrator.
pub record IsAdmin (s : Service) (r : Request) (w : s.World) : Type 0 where
  pub user : User
  pub hash : String
  pub authentic : (authenticate s r w).0 ≡ ok (user, hash)
  pub admin : user.is_admin ≡ true

abbrev admin_if : (s : Service) → User → Handler s Unit
admin_if s u = if u.is_admin then pure tt else fail (board_read_public_error board_read_forbidden)

admin_or_error :
    (s : Service) (u : User) (w : s.World) → (admin_if s u w).0 ≡ ok tt → u.is_admin ≡ true
admin_or_error s u w h = elim (Bool-cases u.is_admin) [
  | inl admin ↦ admin
  | inr other ↦ cc (rw other at h)
]

board_read_admin-IsAdmin :
    (s : Service) (r : Request) (w : s.World) → (board_read_admin s r w).0 ≡ ok tt → IsAdmin s r w
unfolding board_read_admin
board_read_admin-IsAdmin s r w h =
    let (u, known, checked) =
      >>=-eq-ok (or_else board_read_public_error (board_read_user s r)) (admin_if s) w h in
    let found = or_else-eq-ok board_read_public_error (board_read_user s r) w known in
    let (hash, authentic, same) = board_read_user-eq-ok s r w u found in
    record {
      user = u;
      hash = hash;
      authentic = authentic;
      admin =
          admin_or_error s u (or_else board_read_public_error (board_read_user s r) w).1 checked;
    }

-- The detail read of an account is answered only where the request authenticates as an account that
-- is an administrator, and with neither services nor session data at the top of the object.
pub user_by_id-Lacks :
    (s : Service) (r : Request) (resp : Response) (w : s.World)
    → (user_by_id s r w).0 ≡ ok resp
    → IsAdmin s r w × Lacks "services" resp × Lacks "sessionData" resp
unfolding user_by_id
user_by_id-Lacks s r resp w h =
    let (_, admin, h₁) =
      >>=-eq-ok (board_read_admin s r) (λ _. detail s (r.path_value "userID")) w h in
    let (d, _, h₂) =
      >>=-eq-ok (find_by_id s (r.path_value "userID")) (answer_admin s) (board_read_admin s r w).1
        h₁ in
    let (services, session) =
      answer_admin-Lacks s d resp
        (find_by_id s (r.path_value "userID") (board_read_admin s r w).1).1 h₂ in
    (board_read_admin-IsAdmin s r w admin, services, session)

-- What is reported of a board: the first strictly matching member, without the user id and with the
-- board's id.
pub record IsReport (f : Floats) (id : Value) (board m : Fields) : Type 0 where
  pub found : Fields
  pub mine : user_read_strict_id f found id ≡ true
  pub copied : m ≡ membership board found
  pub anonymous : find "userId" m ≡ none

abbrev pub AreReports : Floats → Value → List Fields → List Fields → Type 0
AreReports f id [] [] = Unit
AreReports f id (b ∷ bs) (m ∷ ms) = IsReport f id b m × AreReports f id bs ms
AreReports f id _ _ = ⊥

first_member-matches :
    (f : Floats) (id : Value) (members : List Value) (found : Fields)
    → first_member f id members ≡ ok found
    → user_read_strict_id f found id ≡ true
unfolding first_member
first_member-matches f id [] found h = cc
first_member-matches f id (null ∷ rest) found h = cc
first_member-matches f id (undef ∷ rest) found h = cc
first_member-matches f id (raw ∷ rest) found h =
    ground (arith, first_member-matches f id rest found)

report :
    (f : Floats) (id : Value) (board found : Fields)
    → user_read_strict_id f found id ≡ true
    → IsReport f id board (membership board found)
report f id board found mine = record {
  found = found;
  mine = mine;
  copied = refl;
  anonymous = ground (
    arith,
    find-put "boardId" "userId" (get "_id" board) (remove "userId" found),
    find-remove "userId" "userId" found,
    eq_refl "userId",
  );
}

-- If the memberships are answered, there is one for each board, in order.
pub memberships-AreReports :
    (f : Floats) (id : Value) (boards ms : List Fields)
    → memberships f id boards ≡ ok ms
    → AreReports f id boards ms
unfolding memberships
memberships-AreReports f id [] [] h = tt
memberships-AreReports f id [] (m ∷ ms) h = cc
memberships-AreReports f id (b ∷ bs) ms h =
    let (members, array, h₁) = then_on-eq-ok (members_array (as_array (get "members" b))) _ h in
    let (found, first, h₂) = then_on-eq-ok (first_member f id members) _ h₁ in
    let (rest, later, same) = then_on-eq-ok (memberships f id bs) _ h₂ in
    subst (AreReports f id (b ∷ bs)) (ok-injective same) (
      report f id b found (first_member-matches f id members found first),
      memberships-AreReports f id bs rest later,
    )
