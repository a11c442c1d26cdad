-- ===== src/Api/Boards/Laws.antt =====
-- What the board listings show.
use mathlib.Core.List.{Memᴰ}
use wekango.Base.{
  String, true, false, List, [], ◌∷◌, none, arith, ◌≡◌, refl, Bool-cases, inl, inr, if◌then◌else◌,
  All,
}
use wekango.Bson.{Fields}
use wekango.Bson.Fetch.{
  find, get, is_str, as_str, board_read_fields, find-board_read_fields, listed,
}
use wekango.Api.Boards.{is_visible, hidden_title, visible_summaries}

-- A summary of a listed board that is an ordinary one and whose title is not between carets.
pub record IsSummary (boards : List Fields) (d : Fields) : Type 0 where
  pub board : Fields
  pub from : Memᴰ board boards
  pub ordinary : is_str (get "type" board) "board" ≡ true
  pub shown : hidden_title (as_str (get "title" board)) ≡ false
  pub exact :
      (key : String)
      → find key d ≡ (if listed key ("_id" ∷ "title" ∷ []) then find key board else none)

IsSummary-cons :
    {b d : Fields} {boards : List Fields} → IsSummary boards d → IsSummary (b ∷ boards) d
IsSummary-cons s = record {
  board = s.board;
  from = Memᴰ.tail s.from;
  ordinary = s.ordinary;
  shown = s.shown;
  exact = s.exact;
}

All-IsSummary-cons :
    (b : Fields) (boards ds : List Fields)
    → All (IsSummary boards) ds
    → All (IsSummary (b ∷ boards)) ds
All-IsSummary-cons b boards [] h = tt
All-IsSummary-cons b boards (d ∷ ds) h = (IsSummary-cons h.0, All-IsSummary-cons b boards ds h.1)

IsSummary-first :
    (b : Fields) (rest : List Fields)
    → is_visible b ≡ true
    → IsSummary (b ∷ rest) (board_read_fields b ("_id" ∷ "title" ∷ []))
IsSummary-first b rest seen = record {
  board = b;
  from = Memᴰ.head refl;
  ordinary = ground arith;
  shown = ground arith;
  exact = λ key. find-board_read_fields key b ("_id" ∷ "title" ∷ []);
}

-- Every entry of a board listing is the summary of one of the boards that the database gave: an
-- ordinary board with no caret title, shown by its id and title and nothing else.
pub visible_summaries-IsSummary :
    (boards : List Fields) → All (IsSummary boards) (visible_summaries boards)
unfolding visible_summaries
visible_summaries-IsSummary [] = tt
visible_summaries-IsSummary (b ∷ rest) = elim (Bool-cases (is_visible b)) [
  | inl seen ↦ rw seen (
    IsSummary-first b rest seen,
    All-IsSummary-cons b rest (visible_summaries rest) (visible_summaries-IsSummary rest),
  )
  | inr skipped ↦
      rw skipped
        (All-IsSummary-cons b rest (visible_summaries rest) (visible_summaries-IsSummary rest))
]
