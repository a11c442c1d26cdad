-- ===== src/Tests/Fields.antt =====
-- The repair of member flags on a concrete board.
use wekango.Base.{true, [], ◌∷◌}
use wekango.Bson.{bool, str, Fields, fields, doc_of, arr_of}
use wekango.Migrations.Fields.Flags.{repair_board}
use wekango.Migrations.Fields.Members.{IsRepaired, repair_board-IsRepaired}
use wekango.Tests.Fixture.{database, clock}

-- A board with a member that lacks the flag.
abbrev old_board : Fields
old_board = fields (
    ("_id", str "b1")
    ∷ (
      "members",
      arr_of (
          doc_of (("userId", str "ada") ∷ [])
          ∷ doc_of (("userId", str "eve") ∷ ("isActive", bool true) ∷ [])
          ∷ []),
    )
    ∷ [])

repair_board-IsRepaired_example :
    IsRepaired database old_board clock (repair_board database old_board clock)
repair_board-IsRepaired_example = repair_board-IsRepaired database old_board clock
