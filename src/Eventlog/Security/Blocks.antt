-- ===== src/Eventlog/Security/Blocks.antt =====
-- internal/eventlog/security.go: whom a security event can block.
use wekango.Base.{
  ℕ, String, Bool, true, false, ◌&&◌, ◌≡◌, ◌⊎◌, refl, ◌==◌, List, [], ◌∷◌, arith, Bool-cases, inl,
  inr, any,
}
use wekango.Base.Exec.{ok}
use wekango.Base.Map.{Map, lookup}
use wekango.Bson.{Value, Fields, bool, fields, str}
use wekango.Bson.Truth.{summary_truthy}
use wekango.Bson.Fetch.{get, is_str, find, map_of, as_map}
use wekango.Env.{Env}
use wekango.Eventlog.Summary.{Formats}
use wekango.Eventlog.Security.{
  severity_of, should_block_security_account, block_security_account, block_update, is_severe,
}
use wekango.Eventlog.Security.Catalog.{
  SecurityCategoryEntry, security_categories, security_category, or_unknown,
}

-- The event names an account, tells of a refusal, and is of high or critical severity.
pub record IsBlocking (f : Formats) (evt : Fields) : Type 0 where
  pub identified : summary_truthy (get "userId" evt) ≡ true
  pub refused : is_str (get "action" evt) "blocked" ≡ true
  pub severe : is_severe (severity_of f evt) ≡ true

should_block-IsBlocking :
    (f : Formats) (evt : Fields) → should_block_security_account f evt ≡ true → IsBlocking f evt
unfolding should_block_security_account
should_block-IsBlocking f evt h = record {
  identified = ground arith;
  refused = ground arith;
  severe = ground arith;
}

-- The world after one update of the user with that id, which disables the login.
pub record IsBlocked (env : Env) (id : Value) (w v : env.World) : Type 0 where
  pub update : Fields
  pub disables : get "loginDisabled" (map_of (get "$set" update)) ≡ bool true
  pub only : v ≡ (env.update_one "users" (fields (("_id", id) ∷ [])) update false w).1

-- Reporting an event either leaves the database alone and answers that nothing was blocked, or the
-- event names an account, tells of a refusal and is of high or critical severity, by its own severity
-- or that of its catalog entry; then the one write disables the login of the user whose id is the
-- event's `userId`.
pub block_security_account-IsBlocking :
    (f : Formats) (env : Env) (evt : Fields) (now : ℕ) (w : env.World)
    → (block_security_account f env evt now w ≡ (ok false, w))
      ⊎ IsBlocking f evt
        × IsBlocked env (get "userId" evt) w (block_security_account f env evt now w).1
unfolding block_security_account block_update get find map_of as_map
block_security_account-IsBlocking f env evt now w =
    elim (Bool-cases (should_block_security_account f evt)) [
      | inl blocks ↦ rw blocks (
          inr (
            should_block-IsBlocking f evt blocks,
            record { update = block_update f evt now; disables = refl; only = refl },
          ))
      | inr spares ↦ rw spares (inl refl)
    ]

abbrev levels : List String
levels = "info" ∷ "low" ∷ "medium" ∷ "high" ∷ "critical" ∷ []

abbrev pub is_level : Value → Bool
is_level severity = any (is_str severity) levels

abbrev all_levels : Map SecurityCategoryEntry → Bool
all_levels [] = true
all_levels ((key, e) ∷ rest) = is_level (str e.severity) && all_levels rest

and_left : (a b : Bool) → a && b ≡ true → a ≡ true
and_left true b h = refl
and_left false b h = h

and_right : (a b : Bool) → a && b ≡ true → b ≡ true
and_right true b h = h
and_right false b h = cc

lookup-IsLevel :
    (key : String) (m : Map SecurityCategoryEntry)
    → all_levels m ≡ true
    → is_level (str (or_unknown (lookup key m)).severity) ≡ true
unfolding lookup
lookup-IsLevel key [] h = refl
lookup-IsLevel key ((k, e) ∷ m) h = elim (Bool-cases (k == key)) [
  | inl same ↦ rw same (and_left (is_level (str e.severity)) (all_levels m) h)
  | inr differ ↦
      rw differ (lookup-IsLevel key m (and_right (is_level (str e.severity)) (all_levels m) h))
]

-- The severity of every key, in the catalog or not, is one of the five levels.
pub security_category-severity :
    (key : String) → is_level (get "severity" (security_category key)) ≡ true
unfolding security_category security_categories get find
security_category-severity key = lookup-IsLevel key security_categories refl
