-- ===== src/Api/Access/Laws.antt =====
-- Who is let in to a board by `boardReadAccess`.
use mathlib.Core.List.{Memᴰ}
use wekango.Base.{
  String, Bool, true, false, List, [], ◌∷◌, Option, none, some, arith, ◌≡◌, refl, ap, ◌∙◌, ◌↔◌,
  eq_refl, eq_iff, Bool-cases, inl, inr, ◌||◌, ◌⊎◌,
}
use wekango.Base.Exec.{ok-injective, ok, >>=-eq-ok, lift, or_else, or_else-eq-ok}
use wekango.Bson.{Value, null, str, Fields, end}
use wekango.Bson.Truth.{truthy}
use wekango.Bson.Fetch.{get, is_str, as_array}
use wekango.Api.Service.{Service, Request, User}
use wekango.Api.Errors.{board_read_unauthorized}
use wekango.Api.Auth.{authenticate}
use wekango.Api.Access.{
  member_map, by_id, scan_access, decide_access, board_read_user_access, may_read, scan_members,
  members_of, board_error, board_read_user, board_read_access,
}

-- An active member of that id, none of whose three role restrictions is set.
pub record MayRead (id : String) (member : Fields) : Type 0 where
  pub user : get "userId" member ≡ str id
  pub active : truthy (get "isActive" member) ≡ true
  pub comments : truthy (get "isNoComments" member) ≡ false
  pub not_comment_only : truthy (get "isCommentOnly" member) ≡ false
  pub not_worker : truthy (get "isWorker" member) ≡ false

is_str-eq : (v : Value) (id : String) → is_str v id ≡ true → v ≡ str id
is_str-eq (str t) id h = ap str ((eq_iff t id).0 h)
is_str-eq null id h = cc
is_str-eq _ id h = cc

is_str_self : (v : Value) (id : String) → v ≡ str id → is_str v id ≡ true
is_str_self v id e = rw e (eq_refl id)

pub may_read_iff : (id : String) (member : Fields) → (may_read id member ≡ true) ↔ MayRead id member
unfolding may_read
may_read_iff id member = (
  λ h. record {
    user = is_str-eq (get "userId" member) id (ground arith);
    active = ground arith;
    comments = ground arith;
    not_comment_only = ground arith;
    not_worker = ground arith;
  },
  λ m. ground (arith, is_str_self (get "userId" member) id m.user),
)

scan_members-granted :
    (id : String) (members : List Value)
    → scan_members id members ≡ ok true
    → (v : Value) × Memᴰ v members × MayRead id (member_map v)
unfolding scan_members
scan_members-granted id [] h = cc
scan_members-granted id (null ∷ rest) h = cc
scan_members-granted id (raw ∷ rest) h = elim (Bool-cases (may_read id (member_map raw))) [
  | inl yes_here ↦ (raw, Memᴰ.head refl, (may_read_iff id (member_map raw)).0 yes_here)
  | inr missed ↦
      let (v, listed, holds) = scan_members-granted id rest (rw missed at h) in
      (v, Memᴰ.tail listed, holds)
]

pub record IsGranted (s : Service) (r : Request) (board_id : String) (w : s.World) : Type 0 where
  pub user : User
  pub hash : String
  pub authentic : (authenticate s r w).0 ≡ ok (user, hash)
  pub board : Fields
  pub found : (s.find_one "boards" (by_id board_id) end (authenticate s r w).1).0 ≡ ok board
  pub members : List Value
  pub array : as_array (get "members" board) ≡ some members
  pub entitled :
      (user.is_admin ≡ true) ⊎ ((v : Value) × Memᴰ v members × MayRead user.id (member_map v))

pub board_read_user-eq-ok :
    (s : Service) (r : Request) (w : s.World) (u : User)
    → (board_read_user s r w).0 ≡ ok u
    → (hash : String) × ((authenticate s r w).0 ≡ ok (u, hash))
      × ((board_read_user s r w).1 ≡ (authenticate s r w).1)
unfolding board_read_user
board_read_user-eq-ok s r w u h =
    let (p, found, same) =
      >>=-eq-ok (or_else (λ e. board_read_unauthorized) (authenticate s r)) _ w h in
    let known = or_else-eq-ok (λ e. board_read_unauthorized) (authenticate s r) w found in
    (p.1, known ∙ ap (λ x. ok (x, p.1)) (ok-injective same), rw known refl)

board_read_access-of_user :
    (s : Service) (r : Request) (board_id hash : String) (u : User) (w : s.World)
    → (authenticate s r w).0 ≡ ok (u, hash)
    → (board_read_access s r board_id w).0 ≡ ok tt
    → (board_read_user_access s u board_id (authenticate s r w).1).0 ≡ ok tt
unfolding board_read_access board_read_user
board_read_access-of_user s r board_id hash u w known h = rw (known, board_read_access) at h

members_of-eq-some :
    (o : Option (List Value)) (members : List Value) → members_of o ≡ ok members → o ≡ some members
members_of-eq-some none members h = cc
members_of-eq-some (some xs) members h = cc

granted-entitled :
    (u : User) (members : List Value) (granted : Bool)
    → scan_members u.id members ≡ ok granted
    → granted || u.is_admin ≡ true
    → (u.is_admin ≡ true) ⊎ ((v : Value) × Memᴰ v members × MayRead u.id (member_map v))
granted-entitled u members true scanned h = inr (scan_members-granted u.id members scanned)
granted-entitled u members false scanned h = inl h

decide_access-eq-ok :
    (s : Service) (u : User) (granted : Bool) (w : s.World)
    → (decide_access s u granted w).0 ≡ ok tt
    → granted || u.is_admin ≡ true
decide_access-eq-ok s u granted w h = elim (Bool-cases (granted || u.is_admin)) [
  | inl let_in ↦ let_in
  | inr denied ↦ cc (rw denied at h)
]

-- Access to a board is granted only to an authenticated user who is an administrator or is listed
-- among the members of the board that the database found, as active and with none of the three
-- restricted roles; and only if the members are an array.
pub board_read_access-IsGranted :
    (s : Service) (r : Request) (board_id : String) (w : s.World)
    → (board_read_access s r board_id w).0 ≡ ok tt
    → IsGranted s r board_id w
unfolding board_read_access
board_read_access-IsGranted s r board_id w h =
    let (u, user_found, h₁) =
      >>=-eq-ok (board_read_user s r) (λ x. board_read_user_access s x board_id) w h in
    let (hash, known, same) = board_read_user-eq-ok s r w u user_found in
    let h₂ = board_read_access-of_user s r board_id hash u w known h in
    let (board, found, h₃) =
      >>=-eq-ok (or_else board_error (s.find_one "boards" (by_id board_id) end)) _ _ h₂ in
    let (members, array, h₄) =
      >>=-eq-ok (lift (members_of (as_array (get "members" board)))) (λ x. scan_access s u x) _
        h₃ in
    let (granted, scanned, h₅) =
      >>=-eq-ok (lift (scan_members u.id members)) (decide_access s u) _ h₄ in
    record {
      user = u;
      hash = hash;
      authentic = known;
      board = board;
      found = or_else-eq-ok board_error (s.find_one "boards" (by_id board_id) end) _ found;
      members = members;
      array = members_of-eq-some (as_array (get "members" board)) members array;
      entitled = granted-entitled u members granted scanned (decide_access-eq-ok s u granted _ h₅);
    }
