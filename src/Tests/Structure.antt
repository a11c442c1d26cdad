-- ===== src/Tests/Structure.antt =====
-- The merge of two lists of the same title, and a second run over the items of a checklist.
use wekango.Base.{zero, suc, String, true, List, [], ◌∷◌, ◌≡◌, refl}
use wekango.Base.Exec.{ok}
use wekango.Bson.{Value, bool, int, str, obj, doc_m, Fields, fields}
use wekango.Bson.Fetch.{find, get, map_of, as_map}
use wekango.Bson.Truth.{truthy}
use wekango.Base.Map.{Map}
use wekango.Base.Int.{pos}
use wekango.Random.{field_random_id, id_from, accept, letter_at, concat}
use wekango.Migrations.Items.{field_item_key, field_string, item_doc, item_docs}
use wekango.Migrations.Items.Resume.{IsDone, item_docs-resumed}
use wekango.Migrations.Structure.{Tools, W}
use wekango.Migrations.Structure.Trace.{recorded}
use wekango.Tests.Fixture.{database, clock}

abbrev shown : Value → String
shown (str s) = s
shown (int (pos zero)) = "0"
shown (int (pos (suc zero))) = "1"
shown _ = "?"

abbrev tools : Tools
tools = record { env = database; sprint = shown; rounds = 17 }

-- A list of a swimlane, the shared list of the same title, and another.
abbrev split_lists : List Fields
split_lists =
    fields (("_id", str "l1") ∷ ("title", str "Doing") ∷ ("swimlaneId", str "s1") ∷ [])
    ∷ fields (("_id", str "l2") ∷ ("title", str "Doing") ∷ ("swimlaneId", str "") ∷ [])
    ∷ fields (("_id", str "l3") ∷ ("title", str "Done") ∷ [])
    ∷ []

abbrev noted : Tools
noted = recorded tools

abbrev unwritten : W noted
unwritten = (clock, [])

-- The first board has a default swimlane.
abbrev two_boards : List Fields
two_boards = fields (("_id", str "b1") ∷ []) ∷ fields (("_id", str "b2") ∷ []) ∷ []

abbrev one_default : Map String
one_default = ("b1", "s1") ∷ []

abbrev both_defaults : Map String
both_defaults = ("b1", "s1") ∷ ("b2", "99999999999999999") ∷ []

abbrev checklist : Fields
checklist = fields (("_id", str "c1") ∷ ("cardId", str "k1") ∷ [])

abbrev milk : Fields
milk = fields (("title", str "Milk") ∷ [])

abbrev eggs : Fields
eggs = fields (("title", str "Eggs") ∷ ("isFinished", bool true) ∷ [])

abbrev embedded : List Value
embedded = obj doc_m milk ∷ obj doc_m eggs ∷ []

abbrev of_milk : String
of_milk = "Milk\00\0false"

abbrev of_eggs : String
of_eggs = "Eggs\01\0true"

abbrev eggs_doc : Fields
eggs_doc = item_doc tools 5 checklist "99999999999999999" 1 eggs

-- The milk is there already.
first_run : (item_docs tools 5 checklist (of_milk ∷ []) 0 embedded clock).0 ≡ ok (eggs_doc ∷ [])
unfolding item_docs field_item_key field_string find get map_of as_map truthy field_random_id
    id_from accept letter_at concat
first_run = refl

key_of_eggs : field_item_key tools eggs_doc ≡ of_eggs
unfolding field_item_key field_string find get truthy
key_of_eggs = refl

item_docs-resumed_example :
    IsDone (item_docs tools 9 checklist (of_eggs ∷ of_milk ∷ []) 0 embedded clock).0
item_docs-resumed_example =
    item_docs-resumed tools 5 9 checklist (of_milk ∷ []) (of_eggs ∷ of_milk ∷ []) 0 embedded clock
      clock first_run (refl, tt) (rw key_of_eggs refl, tt)
