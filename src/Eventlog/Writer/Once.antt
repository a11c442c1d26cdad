-- ===== src/Eventlog/Writer/Once.antt =====
-- internal/eventlog/writer.go: a fold counts its event once.
use wekango.Base.{
  ℕ, String, Bool, false, List, [], ◌∷◌, ◌==◌, ◌≡◌, refl, sym, ap, ◌∙◌, none, some, eqb, Bool-cases,
  inl, inr, eq_iff,
}
use wekango.Base.Map.{Map, lookup}
use wekango.Base.Affix.{strip_prefix, strip_prefix-append}
use wekango.Base.Text.{◌⊕◌}
use wekango.Bson.{double, Fields, end, field}
use wekango.Bson.Fetch.{put, put_all, find, find-put, get, map_of, as_map}
use wekango.Eventlog.Summary.{Formats, actors_of, actor_key_for}
use wekango.Eventlog.Summary.Updates.{
  ActorChanges, is_known, actor_path, note_actor, note_actors, actor_update, summary_update,
}
use wekango.Eventlog.Summary.Cap.{AllKeys, AllKeys-put}
use wekango.Eventlog.Writer.{WriterEnv, row_update, once}

-- The name of no counter of a row.
abbrev IsOther : String → Type 0
IsOther name = (name == "count") ≡ false

actor_path-IsOther : (key : String) → IsOther (actor_path key ".count")
unfolding strip_prefix
actor_path-IsOther key = elim (Bool-cases (actor_path key ".count" == "count")) [
  | inl same ↦
      let equal : actor_path key ".count" ≡ "count" =
        (eq_iff (actor_path key ".count") "count").0 same in
      let cut : none ≡ some (key ⊕ ".count") =
        ap (strip_prefix "actors.") (sym equal) ∙ strip_prefix-append "actors." (key ⊕ ".count") in
      cc
  | inr differ ↦ differ
]

module _ (f : Formats) (now times : ℕ) (known : Map Bool) where
  note_actor-IsOther :
      (key : String) (actor : Fields) (c : ActorChanges)
      → AllKeys IsOther c.inc
      → AllKeys IsOther (note_actor f now times known key actor c).inc
  unfolding note_actor
  note_actor-IsOther key actor c h = elim (Bool-cases (key == "")) [
    | inl empty ↦ rw empty h
    | inr named ↦ elim (Bool-cases (is_known (lookup key known))) [
      | inl old ↦
          rw (named, old)
            (AllKeys-put IsOther (actor_path key ".count") (double times) c.inc
              (actor_path-IsOther key) h)
      | inr new ↦ elim (Bool-cases (eqb c.room 0)) [
        | inl full ↦ rw (named, new, full) (AllKeys-put IsOther "actorsOverflow" _ c.inc refl h)
        | inr room ↦
            rw (named, new, room)
              (AllKeys-put IsOther (actor_path key ".count") (double times) c.inc
                (actor_path-IsOther key) h)
      ]
    ]
  ]

  note_actors-IsOther :
      (actors : List Fields) (c : ActorChanges)
      → AllKeys IsOther c.inc
      → AllKeys IsOther (note_actors f now times known actors c).inc
  unfolding note_actors
  note_actors-IsOther [] c h = h
  note_actors-IsOther (actor ∷ actors) c h =
      note_actors-IsOther actors _ (note_actor-IsOther (actor_key_for f actor) actor c h)

find-put_all :
    (acc d : Fields) → AllKeys IsOther d → find "count" (put_all acc d) ≡ find "count" acc
unfolding put_all
find-put_all acc end h = refl
find-put_all acc (field k v d) h =
    find-put_all (put k v acc) d h.1 ∙ find-put k "count" v acc ∙ rw h.0 refl

-- The increments of a fold's update.
abbrev pub increments : Fields → Fields
increments update = map_of (get "$inc" update)

-- The update of a fold counts its event once, whatever count the event has, and however many actors
-- are counted with it.
pub count-row_update :
    (e : WriterEnv) (evt : Fields) (when : ℕ) (known : Map Bool) (id : String)
    → find "count"
        (increments (row_update e evt when (actor_update e.formats when once known evt) id))
      ≡ some (double once)
unfolding row_update summary_update map_of as_map get find actor_update
count-row_update e evt when known id =
    find-put_all _ (actor_update e.formats when once known evt).inc
      (note_actors-IsOther e.formats when once known (actors_of e.formats evt) _ tt)
