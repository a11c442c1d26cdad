-- ===== src/Api/Auth/Laws.antt =====
-- What a successful authentication shows.
use wekango.Base.{ℕ, ◌+◌, ◌<◌, ◌≤◌, String, false, List, ◌≡◌, ◌≢◌}
use wekango.Base.Exec.{ok}
use mathlib.Core.List.{Memᴰ}
use wekango.Bson.{Fields, end}
use wekango.Api.Service.{Service, Request, User, LoginToken}
use wekango.Api.Auth.{login_disabled, token_hash, request_token, by_token}

-- The token of the account that the request's token opens: not expired, and not from the future.
pub record IsSession (expiration : ℕ) (hash : String) (now : ℕ) (t : LoginToken) : Type 0 where
  pub same : t.hash ≡ hash
  pub issued : 0 < t.when
  pub past : t.when ≤ now
  pub unexpired : now < t.when + expiration

pub record IsAuthentic (s : Service) (r : Request) (w : s.World) (u : User) (hash : String)
    : Type 0 where
  pub hashed : hash ≡ token_hash s (request_token r)
  pub doc : Fields
  pub found : (s.find_one "users" (by_token hash) end w).0 ≡ ok doc
  pub decoded : s.decode_user doc ≡ ok u
  pub enabled : login_disabled u.disabled ≡ false
  pub named : u.id ≢ ""
  pub at : ℕ
  pub token : LoginToken
  pub listed : Memᴰ token u.tokens
  pub session : IsSession s.limits.expiration hash at token
