-- ===== src/Eventlog/Writer/Cap.antt =====
-- internal/eventlog/writer.go: the actors that a fold adds to those it knows of a row.
use Prim.Native.String
use wekango.Base.{
  ℕ, ◌+◌, ◌-◌, ◌≤◌, String, Bool, true, List, [], ◌∷◌, ◌==◌, ◌≡◌, refl, sym, ap, ◌∙◌, arith, Option,
  none, some, if◌then◌else◌, eqb, max, length, Bool-cases, Option-cases, inl, inr, eq_iff,
}
use text.Mathlib.TextLemmas.{append_assoc}
use wekango.Base.Text.{◌⊕◌}
use wekango.Base.Map.{Map, lookup, length-insert, length-insert-some, lookup-insert}
use wekango.Base.Affix.{strip_prefix, strip_suffix, strip_prefix-append, strip_suffix-append}
use wekango.Bson.{Value, double, Fields, end, field}
use wekango.Bson.Fetch.{put}
use wekango.Eventlog.Summary.{Formats, max_actors, actors_of, actor_key_for}
use wekango.Eventlog.Summary.Updates.{
  ActorChanges, is_known, actor_path, note_actor, note_actors, actor_update,
}
use wekango.Eventlog.Summary.Cap.{is_known-eq}
use wekango.Eventlog.Writer.{actor_of, mark, mark_one}

-- What an actor's count is called in an update is read back as the actor, if its key has the sixteen
-- letters of a key, and as no actor if not.
pub actor_of-actor_path :
    (key : String)
    → actor_of (actor_path key ".count") ≡ (if eqb (String.len key) 16 then some key else none)
unfolding actor_of
actor_of-actor_path key =
    let behind : strip_suffix ".count" (actor_path key ".count") ≡ some ("actors." ⊕ key) =
      ap (strip_suffix ".count") (sym (append_assoc "actors." key ".count"))
      ∙ strip_suffix-append ("actors." ⊕ key) ".count" in
    rw (strip_prefix-append "actors." (key ⊕ ".count"), behind, strip_suffix-append key ".count")
      refl

-- The entry is new: 1, or 0.
abbrev absent_one : Option Bool → ℕ
absent_one none = 1
absent_one (some b) = 0

abbrev new_one : Option String → Map Bool → ℕ
new_one none known = 0
new_one (some actor) known = absent_one (lookup actor known)

-- How many fields of `$inc` count an actor that is not known.
fresh : Map Bool → Fields → ℕ
fresh known end = 0
fresh known (field name v d) = new_one (actor_of name) known + fresh known d

length-mark_one :
    (o : Option String) (known : Map Bool)
    → length (mark_one o known) ≤ length known + new_one o known
length-mark_one none known = omega arith
length-mark_one (some actor) known = elim (Option-cases (lookup actor known)) [
  | inl missing ↦ rw missing (length-insert actor true known)
  | inr (b, found) ↦
      let same = length-insert-some actor true b known found in rw found (omega (arith, same))
]

new_one_le :
    (o q : Option String) (known : Map Bool) → new_one o (mark_one q known) ≤ new_one o known
new_one_le none q known = omega arith
new_one_le (some actor) none known = omega arith
new_one_le (some actor) (some other) known = ground (arith, lookup-insert other actor true known)

fresh_le :
    (q : Option String) (known : Map Bool) (d : Fields) → fresh (mark_one q known) d ≤ fresh known d
unfolding fresh
fresh_le q known end = omega arith
fresh_le q known (field name v d) =
    omega (arith, new_one_le (actor_of name) q known, fresh_le q known d)

length-mark : (known : Map Bool) (d : Fields) → length (mark known d) ≤ length known + fresh known d
unfolding fresh mark
length-mark known end = omega arith
length-mark known (field name v d) =
    let o = actor_of name in
    omega (arith, length-mark (mark_one o known) d, length-mark_one o known, fresh_le o known d)

fresh-put :
    (known : Map Bool) (name : String) (v : Value) (d : Fields)
    → fresh known (put name v d) ≤ fresh known d + new_one (actor_of name) known
unfolding fresh put
fresh-put known name v end = omega arith
fresh-put known name v (field j w d) = elim (Bool-cases (j == name)) [
  | inl same ↦ rw (same, (eq_iff j name).0 same) (omega arith)
  | inr differ ↦ rw differ (omega (arith, fresh-put known name v d))
]

new_one-le : (o : Option String) (known : Map Bool) → new_one o known ≤ 1
new_one-le none known = omega arith
new_one-le (some actor) known = elim (Option-cases (lookup actor known)) [
  | inl missing ↦ rw missing (omega arith)
  | inr (b, found) ↦ rw found (omega arith)
]

new_one-old :
    (key : String) (known : Map Bool)
    → is_known (lookup key known) ≡ true
    → new_one (actor_of (actor_path key ".count")) known ≡ 0
new_one-old key known old = elim (Bool-cases (eqb (String.len key) 16)) [
  | inl full ↦ rw (actor_of-actor_path key, full, is_known-eq (lookup key known) old) refl
  | inr short ↦ rw (actor_of-actor_path key, short) refl
]

new_one-overflow : (known : Map Bool) → new_one (actor_of "actorsOverflow") known ≡ 0
unfolding actor_of strip_prefix strip_suffix
new_one-overflow known = refl

-- The actors that the update of an event adds, with the room that is left.
abbrev spent : Map Bool → ActorChanges → ℕ
spent known c = fresh known c.inc + c.room

module _ (f : Formats) (now times : ℕ) (known : Map Bool) where
  spent-note_actor :
      (key : String) (actor : Fields) (c : ActorChanges)
      → spent known (note_actor f now times known key actor c) ≤ spent known c
  unfolding note_actor
  spent-note_actor key actor c = elim (Bool-cases (key == "")) [
    | inl empty ↦ rw empty (omega arith)
    | inr named ↦ elim (Bool-cases (is_known (lookup key known))) [
      | inl old ↦
          rw (named, old)
            (omega (
              arith,
              fresh-put known (actor_path key ".count") (double times) c.inc,
              new_one-old key known old,
            ))
      | inr new ↦ elim (Bool-cases (eqb c.room 0)) [
        | inl full ↦
            rw (named, new, full)
              (omega (arith, fresh-put known "actorsOverflow" _ c.inc, new_one-overflow known))
        | inr room ↦
            rw (named, new, room)
              (ground (
                arith,
                fresh-put known (actor_path key ".count") (double times) c.inc,
                new_one-le (actor_of (actor_path key ".count")) known,
              ))
      ]
    ]
  ]

  spent-note_actors :
      (actors : List Fields) (c : ActorChanges)
      → spent known (note_actors f now times known actors c) ≤ spent known c
  unfolding note_actors
  spent-note_actors [] c = omega arith
  spent-note_actors (actor ∷ actors) c =
      let key = actor_key_for f actor in
      omega (
        arith,
        spent-note_actors actors (note_actor f now times known key actor c),
        spent-note_actor key actor c,
      )

-- What a fold marks as known after its write: never more than the fifty actors that a row may have,
-- or no more than the row had already.
pub length-mark-actor_update :
    (f : Formats) (now times : ℕ) (known : Map Bool) (evt : Fields)
    → length (mark known (actor_update f now times known evt).inc) ≤ max max_actors (length known)
unfolding actor_update fresh
length-mark-actor_update f now times known evt =
    let room = max_actors - length known in
    omega (
      arith,
      length-mark known (actor_update f now times known evt).inc,
      spent-note_actors f now times known (actors_of f evt)
          (record { set = end; inc = end; room = room }),
    )
