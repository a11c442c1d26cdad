-- ===== src/Eventlog/Security.antt =====
-- internal/eventlog/security.go: when a security event blocks an account, and what blocking writes.
pub mod Catalog
pub mod Format
pub mod Document
pub mod Reporter
pub mod Blocks
use wekango.Base.{ℕ, String, Bool, true, false, not, ◌&&◌, ◌||◌, List, [], ◌∷◌, if◌then◌else◌}
use wekango.Base.Exec.{Exec, Result, ok, err}
use wekango.Base.Text.{◌⊕◌}
use wekango.Bson.{Value, bool, str, time, Fields, end, fields, doc_of}
use wekango.Bson.Truth.{summary_truthy}
use wekango.Bson.Fetch.{get, is_str}
use wekango.Env.{Env, Error, Updated}
use wekango.Eventlog.Summary.{Formats, summary_string}
use wekango.Eventlog.Security.Catalog.{security_category}

-- `securityOr`
unfoldable pub security_or : List Value → Value
unfolding summary_truthy
security_or [] = str ""
security_or (v ∷ vs) = if summary_truthy v then v else security_or vs

abbrev pub is_severe : Value → Bool
is_severe severity = is_str severity "high" || is_str severity "critical"

module _ (f : Formats) where
  -- The catalog's entry for the key of the event, empty without a key.
  unfoldable pub catalog_of : Fields → Fields
  unfolding security_category summary_string summary_truthy get
  catalog_of evt =
      if summary_truthy (get "key" evt)
      then security_category (summary_string f (get "key" evt))
      else end

  -- The severity that decides: the event's own, or its catalog entry's.
  unfoldable pub severity_of : Fields → Value
  unfolding catalog_of summary_truthy get
  severity_of evt =
      if not (summary_truthy (get "severity" evt)) && summary_truthy (get "key" evt)
      then get "severity" (catalog_of evt)
      else get "severity" evt

  -- `ShouldBlockSecurityAccount`
  unfoldable pub should_block_security_account : Fields → Bool
  unfolding severity_of summary_truthy get
  should_block_security_account evt =
      if not (summary_truthy (get "userId" evt)) || not (is_str (get "action" evt) "blocked")
      then false
      else is_severe (severity_of evt)

  -- `SecurityBlockReason`
  unfoldable pub security_block_reason : Fields → String
  unfolding security_or catalog_of summary_string summary_truthy get
  security_block_reason evt =
      let cat = catalog_of evt in
      let name = security_or (
        get "bleed" evt
        ∷ get "bleed" cat
        ∷ get "category" evt
        ∷ get "category" cat
        ∷ str "a security guard"
        ∷ []) in
      let place =
        if summary_truthy (get "source" evt)
        then " at " ⊕ summary_string f (get "source" evt)
        else "" in
      "Attempted " ⊕ summary_string f name ⊕ place ⊕ " while logged in"

  unfoldable pub block_update : Fields → ℕ → Fields
  unfolding security_block_reason security_or get
  block_update evt now = fields (
      (
        "$set",
        doc_of (
            ("loginDisabled", bool true)
            ∷ (
              "services.securityBlock",
              doc_of (
                  ("at", time now)
                  ∷ ("reason", str (security_block_reason evt))
                  ∷ ("bleed", security_or (get "bleed" evt ∷ []))
                  ∷ ("source", security_or (get "source" evt ∷ []))
                  ∷ ("ip", security_or (get "ip" evt ∷ []))
                  ∷ []),
            )
            ∷ []),
      )
      ∷ [])

  abbrev done_of : Result Error Updated → Result Error Bool
  done_of (ok n) = ok true
  done_of (err e) = err e

  abbrev pub write_block : (env : Env) → Fields → ℕ → Exec env.World Error Updated
  write_block env evt now =
      env.update_one "users" (fields (("_id", get "userId" evt) ∷ [])) (block_update evt now) false

  -- `BlockSecurityAccount`
  unfoldable pub block_security_account : (env : Env) → Fields → ℕ → Exec env.World Error Bool
  unfolding should_block_security_account block_update get
  block_security_account env evt now w =
      let (updated, v) = write_block env evt now w in
      if should_block_security_account evt then (done_of updated, v) else (ok false, w)
