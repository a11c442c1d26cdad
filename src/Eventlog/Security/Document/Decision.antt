-- ===== src/Eventlog/Security/Document/Decision.antt =====
-- internal/eventlog/security.go: when the document that is stored of an event blocks an account.
use wekango.Base.{
  ℕ, String, Bool, true, false, not, ◌&&◌, ◌||◌, [], ◌∷◌, ◌==◌, ◌≡◌, refl, ap, ◌∙◌, arith, some,
  none, if◌then◌else◌, Bool-cases, inl, inr, eq_iff, eq_refl,
}
use wekango.Bson.{Value, null, str, Fields}
use wekango.Bson.Truth.{summary_truthy, summary_null, truthy}
use wekango.Bson.Fetch.{find, get, find-put, is_str, or_null}
use wekango.Eventlog.Summary.{Formats, summary_string}
use wekango.Eventlog.Numbers.{Numbers}
use wekango.Eventlog.Security.{security_or, is_severe, severity_of, should_block_security_account}
use wekango.Eventlog.Security.Document.{
  SecurityContext, put_if, account_of, stored_fields, document_of, with_count, with_location,
  with_address, with_name, with_account, security_fields, security_document,
}

find-put_if :
    (b : Bool) (j k : String) (v : Value) (d : Fields)
    → (j == k) ≡ false
    → find k (put_if b j v d) ≡ find k d
find-put_if true j k v d differ = find-put j k v d ∙ rw differ refl
find-put_if false j k v d differ = refl

find-put_if_self :
    (b : Bool) (k : String) (v : Value) (d : Fields)
    → find k (put_if b k v d) ≡ (if b then some v else find k d)
find-put_if_self true k v d = find-put k k v d ∙ rw (eq_refl k) refl
find-put_if_self false k v d = refl

or_null-if : (b : Bool) (v : Value) → or_null (if b then some v else none) ≡ (if b then v else null)
or_null-if true v = refl
or_null-if false v = refl

-- The first value, or a word in place of a falsy one.
falsy-is_str :
    (v : Value) (x : String) → summary_truthy v ≡ false → (x == "") ≡ false → is_str v x ≡ false
unfolding summary_truthy summary_null truthy
falsy-is_str (str t) x falsy named = ground (arith, eq_iff t x, eq_iff t "", eq_iff x "")
falsy-is_str _ x falsy named = refl

is_str-or_word :
    (v : Value) (w x : String)
    → (w == x) ≡ false
    → (x == "") ≡ false
    → is_str (security_or (v ∷ str w ∷ [])) x ≡ is_str v x
unfolding security_or
is_str-or_word v w x differ named = elim (Bool-cases (summary_truthy v)) [
  | inl truthy_one ↦ rw truthy_one refl
  | inr falsy ↦
      rw (falsy, falsy-is_str v x falsy named)
        (elim (Bool-cases (w == "")) [
          | inl blank ↦ rw blank (ground (arith, eq_iff "" x, eq_iff x ""))
          | inr word ↦ rw word differ
        ])
]

or_word-truthy :
    (v : Value) (w : String)
    → summary_truthy (str w) ≡ true
    → summary_truthy (security_or (v ∷ str w ∷ [])) ≡ true
unfolding security_or
or_word-truthy v w h = elim (Bool-cases (summary_truthy v)) [
  | inl truthy_one ↦ rw truthy_one truthy_one
  | inr falsy ↦ rw (falsy, h) h
]

decided :
    (named : Bool) (id : String) (blocked severe : Bool)
    → (if not (summary_truthy (if named then str id else null)) || not blocked
        then false
        else severe)
      ≡ (named && not (id == "") && blocked && severe)
unfolding summary_truthy summary_null truthy
decided named id blocked severe = ground arith

module _ (f : Formats) (n : Numbers) (m : Fields) (k : String) where
  past_count : (d : Fields) → ("count" == k) ≡ false → find k (with_count f n m d) ≡ find k d
  past_count d differ = find-put "count" k _ d ∙ rw differ refl

  past_location :
      (d : Fields) → ("location" == k) ≡ false → find k (with_location f n m d) ≡ find k d
  past_location d differ = find-put_if (summary_truthy (get "location" m)) "location" k _ d differ

  past_address : (d : Fields) → ("ip" == k) ≡ false → find k (with_address f n m d) ≡ find k d
  past_address d differ = find-put_if (summary_truthy (get "ip" m)) "ip" k _ d differ

  past_name : (d : Fields) → ("username" == k) ≡ false → find k (with_name f n m d) ≡ find k d
  past_name d differ = find-put_if (summary_truthy (get "username" m)) "username" k _ d differ

  past_account : (d : Fields) → ("userId" == k) ≡ false → find k (with_account f n m d) ≡ find k d
  past_account d differ = find-put_if (summary_truthy (account_of f n m)) "userId" k _ d differ

  -- What the account, and the fields of the literal, are in the document.
  find-document_of :
      (now : ℕ)
      → ("count" == k) ≡ false
      → ("location" == k) ≡ false
      → ("ip" == k) ≡ false
      → ("username" == k) ≡ false
      → find k (document_of f n m now) ≡ find k (with_account f n m (stored_fields f n m now))
  unfolding document_of
  find-document_of now a b c d =
      let account = with_account f n m (stored_fields f n m now) in
      let named = with_name f n m account in
      let addressed = with_address f n m named in
      past_count (with_location f n m addressed) a
      ∙ past_location addressed b
      ∙ past_address named c
      ∙ past_name account d

module _ (f : Formats) (n : Numbers) (m : Fields) (now : ℕ) where
  get-severity :
      get "severity" (document_of f n m now) ≡ security_or (get "severity" m ∷ str "info" ∷ [])
  unfolding get
  get-severity = ap or_null (
      find-document_of f n m "severity" now refl refl refl refl
      ∙ past_account f n m "severity" (stored_fields f n m now) refl)

  get-action :
      get "action" (document_of f n m now) ≡ security_or (get "action" m ∷ str "detected" ∷ [])
  unfolding get
  get-action = ap or_null (
      find-document_of f n m "action" now refl refl refl refl
      ∙ past_account f n m "action" (stored_fields f n m now) refl)

  get-user_id : get "userId" (document_of f n m now) ≡ (
      if summary_truthy (account_of f n m) then str (summary_string f (account_of f n m)) else null)
  unfolding get
  get-user_id =
      ap or_null (
        find-document_of f n m "userId" now refl refl refl refl
        ∙ find-put_if_self (summary_truthy (account_of f n m)) "userId" _ (stored_fields f n m now))
      ∙ or_null-if (summary_truthy (account_of f n m)) _

  severity_of-document_of :
      severity_of f (document_of f n m now) ≡ security_or (get "severity" m ∷ str "info" ∷ [])
  unfolding severity_of
  severity_of-document_of = rw (get-severity, or_word-truthy (get "severity" m) "info" refl) refl

  should_block-document_of : should_block_security_account f (document_of f n m now) ≡ (
      summary_truthy (account_of f n m)
      && not (summary_string f (account_of f n m) == "")
      && is_str (get "action" m) "blocked"
      && is_severe (get "severity" m))
  unfolding should_block_security_account
  should_block-document_of =
      rw
        (
          get-user_id,
          get-action,
          severity_of-document_of,
          is_str-or_word (get "action" m) "detected" "blocked" refl refl,
          is_str-or_word (get "severity" m) "info" "high" refl refl,
          is_str-or_word (get "severity" m) "info" "critical" refl refl,
        )
        (decided (summary_truthy (account_of f n m)) (summary_string f (account_of f n m))
          (is_str (get "action" m) "blocked") (is_severe (get "severity" m)))

-- The document that is stored of an event blocks an account exactly where the event, with its catalog
-- entry and its actor, names an account, its action is that it was blocked, and its severity is high
-- or critical: the defaults that the document fills in never block.
pub should_block-security_document :
    (f : Formats) (n : Numbers) (evt : Fields) (actor : SecurityContext) (now : ℕ)
    → should_block_security_account f (security_document f n evt actor now) ≡ (
        summary_truthy (account_of f n (security_fields f n evt actor))
        && not (summary_string f (account_of f n (security_fields f n evt actor)) == "")
        && is_str (get "action" (security_fields f n evt actor)) "blocked"
        && is_severe (get "severity" (security_fields f n evt actor)))
unfolding security_document
should_block-security_document f n evt actor now =
    should_block-document_of f n (security_fields f n evt actor) now
