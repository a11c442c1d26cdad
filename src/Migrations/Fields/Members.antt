-- ===== src/Migrations/Fields/Members.antt =====
-- internal/migrations/fields.go: what `RunBoardMembersIsActive` makes of the members of a board.
use wekango.Base.{
  ℕ, String, true, false, ◌&&◌, List, [], ◌∷◌, ◌≡◌, refl, ◌==◌, some, arith, eq_refl, Bool-cases,
  inl, inr, if◌then◌else◌,
}
use wekango.Base.Exec.{Result, ok, err, ◌>>=◌, pure}
use wekango.Bson.{Value, bool, arr, go_slice, Fields, fields, of_items}
use wekango.Bson.Truth.{truthy}
use wekango.Bson.Fetch.{find, get, as_map, find-put, elements}
use wekango.Migrations.Fields.{set_to}
use mathlib.Core.Path.{subst}
use wekango.Env.{Env, Error, Updated}
use wekango.Migrations.Fields.Flags.{
  member_needs_default, patch_member, patch_members, any_needs_default, or_new, repair_board,
  write_members,
}

-- The member after the repair: it is settled, and what is changed is the flag of a member that
-- lacked it.
pub record IsHealed (m p : Value) : Type 0 where
  pub settled : member_needs_default p ≡ false
  pub kept :
      (key : String)
      → find key (or_new (as_map p)) ≡ (
          if "isActive" == key && member_needs_default m
          then some (bool true)
          else find key (or_new (as_map m)))

abbrev pub AreHealed : List Value → List Value → Type 0
AreHealed [] [] = Unit
AreHealed (m ∷ ms) (p ∷ ps) = IsHealed m p × AreHealed ms ps
AreHealed _ _ = ⊥

patch_member-IsHealed : (m : Value) → IsHealed m (patch_member m)
unfolding patch_member member_needs_default truthy as_map
patch_member-IsHealed m = elim (Bool-cases (member_needs_default m)) [
  | inl lacking ↦
      let old = or_new (as_map m) in
      rw lacking (record {
        settled =
            ground (arith, find-put "isActive" "isActive" (bool true) old, eq_refl "isActive");
        kept = λ key. ground (arith, find-put "isActive" key (bool true) old);
      })
  | inr set ↦ rw set (record { settled = set; kept = λ key. ground arith })
]

-- Every member of the patched array is settled and is the old one, in order; only a member that
-- lacked `isActive` has it now as `true`, and nothing else of a member that is a document is changed.
pub patch_members-AreHealed : (members : List Value) → AreHealed members (patch_members members)
unfolding patch_members
patch_members-AreHealed [] = tt
patch_members-AreHealed (m ∷ members) = (patch_member-IsHealed m, patch_members-AreHealed members)

any_needs_default-AreHealed :
    (old new : List Value) → AreHealed old new → any_needs_default new ≡ false
unfolding any_needs_default
any_needs_default-AreHealed [] [] h = refl
any_needs_default-AreHealed [] (p ∷ ps) h = absurd h
any_needs_default-AreHealed (m ∷ ms) [] h = absurd h
any_needs_default-AreHealed (m ∷ ms) (p ∷ ps) h =
    rw h.0.settled (any_needs_default-AreHealed ms ps h.1)

abbrev pub write_of :
    (env : Env) → Fields → List Value → env.World → Result Error Updated × env.World
write_of env doc members w =
    env.update_one "boards" (fields (("_id", get "_id" doc) ∷ []))
      (set_to "members" (arr go_slice (of_items members))) false w

abbrev one_if : Result Error Updated → Result Error ℕ
one_if (ok r) = ok 1
one_if (err e) = err e

-- One board is left as it is where none of its members lacks the flag; else its members are
-- written, to that board alone, as the old ones with the flag set where it was missing.
pub data IsRepaired (env : Env) (doc : Fields) (w : env.World)
    : Result Error ℕ × env.World → Type 0 where
  untouched :
      any_needs_default (elements (get "members" doc)) ≡ false → IsRepaired env doc w (ok 0, w)
  written :
      (members : List Value)
      → AreHealed (elements (get "members" doc)) members
      → any_needs_default members ≡ false
      → IsRepaired env doc w (one_if (write_of env doc members w).0, (write_of env doc members w).1)

one_if-eq :
    {V : Type 0} (r : Result Error Updated) (v w : V)
    → (one_if r, v) ≡ (((λ _. (r, v)) >>= λ u. pure 1) w)
one_if-eq (ok r) v w = refl
one_if-eq (err e) v w = refl

write_members-IsRepaired :
    (env : Env) (doc : Fields) (w : env.World) (members : List Value)
    → AreHealed (elements (get "members" doc)) members
    → any_needs_default members ≡ false
    → IsRepaired env doc w (write_members env doc members (fields (("_id", get "_id" doc) ∷ [])) w)
write_members-IsRepaired env doc w members healed settled =
    subst (IsRepaired env doc w)
      (one_if-eq (write_of env doc members w).0 (write_of env doc members w).1 w)
      (written members healed settled)

-- A turn of the repair leaves a board alone only if none of its members lacks the flag. Otherwise,
-- and then it adds one to the count unless the write fails, it writes to this board, and to nothing else, members of which none lacks the flag any more: the old
-- ones in order, each with all its fields but for the flag, which is `true` where it was missing.
pub repair_board-IsRepaired :
    (env : Env) (doc : Fields) (w : env.World) → IsRepaired env doc w (repair_board env doc w)
repair_board-IsRepaired env doc w =
    let members = elements (get "members" doc) in
    let healed = patch_members-AreHealed members in
    elim (Bool-cases (any_needs_default members)) [
      | inl lacking ↦ rw lacking (
          write_members-IsRepaired env doc w (patch_members members) healed
            (any_needs_default-AreHealed members (patch_members members) healed))
      | inr settled ↦ rw settled (untouched settled)
    ]
