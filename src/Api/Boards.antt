-- ===== src/Api/Boards.antt =====
-- The read handlers of internal/api/board_reads.go: boards, their lists, swimlanes and cards.
pub mod Laws
use Prim.Native.Char.{code}
use wekango.Base.{
  ℕ, ◌^◌, String, Bool, false, not, ◌&&◌, ◌||◌, Option, none, some, List, [], ◌∷◌, map, ◌==◌, eqb,
  if◌then◌else◌,
}
use wekango.Base.Exec.{pure, or_else, ◌>>=◌, ◌>>◌}
use wekango.Base.Int.{pos}
use wekango.Base.Text.{trim_js}
use wekango.Bson.{Value, int, str, obj, arr, doc_m, bson_a, Fields, end, fields, of_items}
use wekango.Bson.Fetch.{find, get, is_str, as_str, board_read_fields}
use wekango.Bson.Json.{json_document}
use wekango.Env.{FindOptions}
use wekango.Api.Service.{Service, Request, Response, Handler, reply}
use wekango.Api.Errors.{board_read_internal, board_read_public_error}
use wekango.Api.Access.{board_read_admin}

abbrev pub no_options : FindOptions
no_options = record { order = end; projection = end }

abbrev pub sorted : FindOptions
sorted = record { order = fields (("sort", int (pos 1)) ∷ []); projection = end }

abbrev line_break : ℕ → Bool
line_break c = eqb c 13 || eqb c 10 || eqb c 0x2028 || eqb c 0x2029

-- The rest of `boardReadCaretTitle` after its first caret.
caret_rest : String → Bool
caret_rest String.[] = false
caret_rest (String.◌∷◌ c s) =
    if s == "" then eqb (code c) b'^' else not (line_break (code c)) && caret_rest s

unfoldable pub caret_title : String → Bool
unfolding caret_rest
caret_title String.[] = false
caret_title (String.◌∷◌ c s) = eqb (code c) b'^' && caret_rest s

abbrev pub hidden_title : Option String → Bool
hidden_title none = false
hidden_title (some title) = caret_title (trim_js title)

-- `boardReadVisibleSummaries`: the loop's two `continue`s.
abbrev pub is_visible : Fields → Bool
is_visible b = is_str (get "type" b) "board" && not (hidden_title (as_str (get "title" b)))

unfoldable pub visible_summaries : List Fields → List Fields
unfolding get caret_title trim_js board_read_fields
visible_summaries [] = []
visible_summaries (b ∷ rest) =
    let later = visible_summaries rest in
    if is_visible b then board_read_fields b ("_id" ∷ "title" ∷ []) ∷ later else later

-- `boardReadAny` and the conversion to `bson.A`
abbrev pub array_of : List Fields → Value
array_of docs = arr bson_a (of_items (map (obj doc_m) docs))

module _ (s : Service) where
  unfoldable pub public_boards : Request → Handler s Response
  unfolding board_read_admin visible_summaries json_document
  public_boards r = do
    board_read_admin s r
    docs ←
        or_else (λ e. board_read_public_error board_read_internal)
          (s.find "boards" (fields (("permission", str "public") ∷ [])) sorted)
    pure (reply 200 (json_document s.format (array_of (visible_summaries docs))))

  abbrev count_of : String → Handler s ℕ
  count_of visibility =
      or_else (λ e. board_read_public_error board_read_internal)
        (s.count_documents "boards" (fields (("permission", str visibility) ∷ [])))

  unfoldable pub board_counts : Request → Handler s Response
  unfolding board_read_admin
  board_counts r = do
    board_read_admin s r
    private ← count_of "private"
    public ← count_of "public"
    pure (
        reply 200
          (obj doc_m (fields (("private", int (pos private)) ∷ ("public", int (pos public)) ∷ []))))
