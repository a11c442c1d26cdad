-- ===== src/Eventlog/Security/Document.antt =====
-- internal/eventlog/security.go: the document that a security event is stored as, and the reporter
-- that stores it and blocks its account.
pub mod Decision
use wekango.Base.{ℕ, String, Bool, true, false, not, ◌&&◌, ◌||◌, [], ◌∷◌, ◌==◌, if◌then◌else◌}
use wekango.Base.Units.{take_units}
use wekango.Bson.{
  Value, double, str, time, nil_obj, nil_arr, arr, obj, doc_m, doc_d, ObjKind, Items, nil, cons,
  Fields, end, field, fields,
}
use wekango.Bson.Truth.{summary_truthy, double_is_nan}
use wekango.Bson.Fetch.{get, put, put_all}
use wekango.Eventlog.Summary.{Formats, summary_string}
use wekango.Eventlog.Numbers.{Numbers, summary_number, js_string_number, is_infinite}
use wekango.Eventlog.Security.{security_or, catalog_of}
use wekango.Eventlog.Security.Format.{sanitize_security_detail}

-- `SecurityContext`
pub record SecurityContext : Type 0 where
  pub user_id : String
  pub ip : String
  pub location : Value

abbrev cloned_kind : ObjKind → ObjKind
cloned_kind doc_d = doc_d
cloned_kind k = doc_m

-- `securityClone`: a copy, in which nil maps and slices become empty ones.
unfoldable mutual
  pub security_clone : Value → Value
  security_clone (obj k d) = obj (cloned_kind k) (clone_fields d)
  security_clone (nil_obj k) = obj (cloned_kind k) end
  security_clone (arr k vs) = arr k (clone_items vs)
  security_clone (nil_arr k) = arr k nil
  security_clone v = v

  pub clone_fields : Fields → Fields
  clone_fields end = end
  clone_fields (field k v d) = field k (security_clone v) (clone_fields d)

  pub clone_items : Items → Items
  clone_items nil = nil
  clone_items (cons v vs) = cons (security_clone v) (clone_items vs)

abbrev pub put_if : Bool → String → Value → Fields → Fields
put_if true key v d = put key v d
put_if false key v d = d

-- `float64` of 1
abbrev once : ℕ
once = 0x3ff0000000000000

module _ (f : Formats) (n : Numbers) where
  -- `securitySlice`
  abbrev security_slice : Value → ℕ → String
  security_slice v limit = take_units limit (summary_string f v)

  -- The catalog's entry with the event's own fields over it.
  abbrev pub merged : Fields → Fields
  merged evt = put_all (catalog_of f evt) evt

  abbrev or_actor : String → String → Fields → Fields
  or_actor key value m =
      put_if (not (summary_truthy (get key m)) && not (value == "")) key (str value) m

  abbrev or_location : Value → Fields → Fields
  or_location location m =
      put_if (not (summary_truthy (get "location" m)) && summary_truthy location) "location"
        location m

  -- The event, with the catalog and the actor.
  unfoldable pub security_fields : Fields → SecurityContext → Fields
  unfolding catalog_of put_all put get summary_truthy
  security_fields evt actor =
      or_location actor.location
        (or_actor "ip" actor.ip (or_actor "userId" actor.user_id (merged evt)))

  abbrev count_number : Value → ℕ
  count_number (str s) = js_string_number n s
  count_number (arr k vs) = js_string_number n (summary_string f (arr k vs))
  count_number (nil_arr k) = js_string_number n (summary_string f (nil_arr k))
  count_number v = summary_number n v

  abbrev whole_count : ℕ → ℕ
  whole_count x =
      if double_is_nan x || is_infinite x || not (n.printer.floats.less 0 x)
      then once
      else n.printer.floats.floor x

  abbrev pub account_of : Fields → Value
  account_of m = security_or (get "userId" m ∷ get "userid" m ∷ [])

  abbrev pub stored_fields : Fields → ℕ → Fields
  stored_fields m now = fields (
      ("stream", str "security")
      ∷ ("at", time now)
      ∷ ("severity", security_or (get "severity" m ∷ str "info" ∷ []))
      ∷ ("category", security_or (get "category" m ∷ str "unknown" ∷ []))
      ∷ ("bleed", security_or (get "bleed" m ∷ str "Generic" ∷ []))
      ∷ ("action", security_or (get "action" m ∷ str "detected" ∷ []))
      ∷ ("source", security_or (get "source" m ∷ []))
      ∷ ("cwe", security_or (get "cwe" m ∷ []))
      ∷ ("detail", str (sanitize_security_detail f (get "detail" m)))
      ∷ [])

  abbrev pub with_account : Fields → Fields → Fields
  with_account m doc =
      put_if (summary_truthy (account_of m)) "userId" (str (summary_string f (account_of m))) doc

  abbrev pub with_name : Fields → Fields → Fields
  with_name m doc =
      put_if (summary_truthy (get "username" m)) "username"
        (str (security_slice (get "username" m) 100)) doc

  abbrev pub with_address : Fields → Fields → Fields
  with_address m doc =
      put_if (summary_truthy (get "ip" m)) "ip" (str (security_slice (get "ip" m) 64)) doc

  abbrev pub with_location : Fields → Fields → Fields
  with_location m doc =
      put_if (summary_truthy (get "location" m)) "location" (security_clone (get "location" m)) doc

  abbrev pub with_count : Fields → Fields → Fields
  with_count m doc = put "count" (double (whole_count (count_number (get "count" m)))) doc

  -- The document of merged fields.
  unfoldable pub document_of : Fields → ℕ → Fields
  unfolding security_or get put summary_truthy sanitize_security_detail summary_string take_units
      security_clone summary_number js_string_number
  document_of m now =
      with_count m
        (with_location m (with_address m (with_name m (with_account m (stored_fields m now)))))

  -- `SecurityDocument`
  unfoldable pub security_document : Fields → SecurityContext → ℕ → Fields
  unfolding security_fields document_of
  security_document evt actor now = document_of (security_fields evt actor) now
