-- ===== src/Eventlog/Summary/Updates.antt =====
-- internal/eventlog/summary.go: `ActorUpdate`, `SummaryIdentity` and `SummaryUpdate`.
use wekango.Base.{
  ℕ, ◌-◌, String, Bool, false, List, [], ◌∷◌, ◌==◌, Option, none, some, if◌then◌else◌, length, eqb,
}
use wekango.Base.Map.{Map, lookup}
use wekango.Base.Text.{◌⊕◌}
use wekango.Bson.{Value, bool, double, str, time, obj, doc_m, Fields, end, field, fields, doc_of}
use wekango.Bson.Truth.{summary_truthy, summary_present}
use wekango.Bson.Fetch.{find, get, put, remove}
use wekango.Eventlog.Summary.{
  Formats, max_actors, identity_fields, latest_fields, actors_of, actor_key_for, classify_address,
}

-- The variables of the loop of `ActorUpdate`. Only whether `room` is positive matters, so it may
-- stop at 0.
pub record ActorChanges : Type 0 where
  pub set : Fields
  pub inc : Fields
  pub room : ℕ

abbrev pub actor_path : String → String → String
actor_path key part = "actors." ⊕ key ⊕ part

abbrev pub is_known : Option Bool → Bool
is_known none = false
is_known (some b) = b

-- `inc["actorsOverflow"].(float64)`, 0 for none
abbrev overflow_of : Value → ℕ
overflow_of (double x) = x
overflow_of _ = 0

abbrev put_family : String → Option Value → Fields → Fields
put_family key none set = set
put_family key (some family) set = put (actor_path key ".family") family set

module _ (f : Formats) (now times : ℕ) (known : Map Bool) where
  abbrev touch : String → ActorChanges → ActorChanges
  touch key c = record c {
    set = put (actor_path key ".at") (time now) c.set;
    inc = put (actor_path key ".count") (double times) c.inc;
  }

  abbrev spill : ActorChanges → ActorChanges
  spill c = record c {
    inc =
        put "actorsOverflow"
          (double (f.floats.add (overflow_of (get "actorsOverflow" c.inc)) times)) c.inc;
  }

  abbrev create : String → Fields → ActorChanges → ActorChanges
  create key actor c = record {
    room = c.room - 1;
    set = put_family key (find "family" actor) (
        put (actor_path key ".value") (get "value" actor) (
          put (actor_path key ".kind") (get "kind" actor)
            (put (actor_path key ".at") (time now) c.set)));
    inc = put (actor_path key ".count") (double times) c.inc;
  }

  -- One turn of the loop, for an actor with the key.
  unfoldable pub note_actor : String → Fields → ActorChanges → ActorChanges
  unfolding put get find lookup
  note_actor key actor c =
      if key == ""
      then c
      else if is_known (lookup key known)
      then touch key c
      else if eqb c.room 0
      then spill c
      else create key actor c

  unfoldable pub note_actors : List Fields → ActorChanges → ActorChanges
  unfolding note_actor actor_key_for
  note_actors [] c = c
  note_actors (actor ∷ actors) c = note_actors actors (note_actor (actor_key_for f actor) actor c)

  -- `ActorUpdate`: what it sets and what it increments.
  unfoldable pub actor_update : Fields → ActorChanges
  unfolding note_actors actors_of
  actor_update evt =
      note_actors (actors_of f evt)
        (record { set = end; inc = end; room = max_actors - length known })

-- The fields of a summary's identity that the event has.
abbrev pub present_of : Option Value → Option Value
present_of none = none
present_of (some v) = if summary_present v then some v else none

abbrev pub or_absent : Option Value → Value
or_absent none = doc_of (("$exists", bool false) ∷ [])
or_absent (some v) = v

-- `SummaryIdentity`
unfoldable pub identity_from : Fields → List String → Fields
unfolding summary_present find
identity_from evt [] = end
identity_from evt (name ∷ names) =
    field name (or_absent (present_of (find name evt))) (identity_from evt names)

unfoldable pub summary_identity : Fields → Fields
unfolding identity_from
summary_identity evt = identity_from evt identity_fields

abbrev pub put_present : String → Option Value → Fields → Fields
put_present name none d = d
put_present name (some v) d = put name v d

-- The two loops over fields in `SummaryUpdate`.
unfoldable pub copy_present : Fields → List String → Fields → Fields
unfolding summary_present find put
copy_present evt [] d = d
copy_present evt (name ∷ names) d =
    copy_present evt names (put_present name (present_of (find name evt)) d)

abbrev put_v4 : String → Fields → Fields
put_v4 v4 set =
    if v4 == "" then set else remove "ipv6" (put "ip" (str v4) (put "ipv4" (str v4) set))

abbrev put_v6 : String → Fields → Fields
put_v6 v6 set =
    if v6 == "" then set else remove "ipv4" (put "ip" (str v6) (put "ipv6" (str v6) set))

abbrev put_addresses : String × String → Fields → Fields
put_addresses (v4, v6) set = put_v6 v6 (put_v4 v4 set)

unfoldable pub summary_set : Formats → Fields → ℕ → Fields
unfolding copy_present classify_address summary_truthy get put remove
summary_set f evt now =
    let set = copy_present evt latest_fields (fields (("at", time now) ∷ [])) in
    if summary_truthy (get "ip" evt)
    then put_addresses (classify_address f (get "ip" evt)) set
    else set

-- `SummaryUpdate`
unfoldable pub summary_update : Formats → Fields → ℕ → ℕ → Fields
unfolding summary_set copy_present
summary_update f evt now times = fields (
    ("$set", obj doc_m (summary_set f evt now))
    ∷ (
      "$setOnInsert",
      obj doc_m (copy_present evt identity_fields (fields (("firstAt", time now) ∷ []))),
    )
    ∷ ("$inc", doc_of (("count", double times) ∷ []))
    ∷ [])
