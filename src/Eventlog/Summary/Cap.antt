-- ===== src/Eventlog/Summary/Cap.antt =====
-- internal/eventlog/summary.go: a summary row keeps no more actors than `MaxActors`.
use wekango.Base.{
  String, Bool, true, false, ◌≡◌, refl, ◌==◌, Option, none, some, Bool-cases, inl, inr,
}
use wekango.Base.Map.{Map, lookup}
use wekango.Bson.{Value, Fields, end, field}
use wekango.Bson.Fetch.{put}
use wekango.Eventlog.Summary.Updates.{is_known, actor_path}

-- Every key of the document has the property.
abbrev pub AllKeys : (String → Type 0) → Fields → Type 0
AllKeys P end = Unit
AllKeys P (field k v d) = P k × AllKeys P d

pub AllKeys-put :
    (P : String → Type 0) (k : String) (v : Value) (d : Fields)
    → P k
    → AllKeys P d
    → AllKeys P (put k v d)
unfolding put
AllKeys-put P k v end here h = (here, tt)
AllKeys-put P k v (field j w d) here h = elim (Bool-cases (j == k)) [
  | inl same ↦ rw same (here, h.1)
  | inr differ ↦ rw differ (h.0, AllKeys-put P k v d here h.1)
]

-- The time of an actor that the row has already.
abbrev pub IsKnownTime : Map Bool → String → Type 0
IsKnownTime known k = (key : String) × (k ≡ actor_path key ".at") × (lookup key known ≡ some true)

pub is_known-eq : (o : Option Bool) → is_known o ≡ true → o ≡ some true
is_known-eq none h = cc
is_known-eq (some true) h = refl
is_known-eq (some false) h = cc
