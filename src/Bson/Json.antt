-- ===== src/Bson/Json.antt =====
-- `jsonDocument` of internal/api/api.go: the driver's documents as plain JSON values.
use Prim.Native.Nat.{ℕ}
use Prim.Native.String.{String}
use text.Mathlib.Text.{◌==◌}
use wekango.Base.{Bool-cases, inl, inr}
use wekango.Base.Int.{ℤ}
use wekango.Bson.{
  Value, str, date, time, nil_obj, nil_arr, arr, obj, Items, nil, cons, Fields, end, field, doc_d,
  doc_m, go_map, bson_a, go_slice,
}
use wekango.Bson.Fetch.{put, put_all, to_map}

-- `t.UTC().Format("2006-01-02T15:04:05.000Z")`, for either kind of time.
pub record Format : Type 0 where
  pub of_date : ℤ → String
  pub of_time : ℕ → String

module _ (format : Format) where
  unfoldable mutual
    unfolding to_map

    pub json_document : Value → Value
    json_document (date ms) = str (format.of_date ms)
    json_document (time t) = str (format.of_time t)
    json_document (obj doc_d d) = obj doc_m (to_map (json_fields d))
    json_document (obj doc_m d) = obj doc_m (json_fields d)
    json_document (nil_obj doc_d) = obj doc_m end
    json_document (nil_obj doc_m) = obj doc_m end
    json_document (arr bson_a vs) = arr go_slice (json_items vs)
    json_document (nil_arr bson_a) = arr go_slice nil
    json_document v = v

    pub json_fields : Fields → Fields
    json_fields end = end
    json_fields (field k v d) = field k (json_document v) (json_fields d)

    pub json_items : Items → Items
    json_items nil = nil
    json_items (cons v vs) = cons (json_document v) (json_items vs)

-- A value as the driver decodes it: every container, at every depth, is the driver's own.
unfoldable mutual
  pub IsDecoded : Value → Type 0
  IsDecoded (obj go_map d) = ⊥
  IsDecoded (obj k d) = AreDecoded d
  IsDecoded (arr go_slice vs) = ⊥
  IsDecoded (arr k vs) = AllDecoded vs
  IsDecoded (nil_obj k) = ⊥
  IsDecoded (nil_arr k) = ⊥
  IsDecoded v = Unit

  pub AreDecoded : Fields → Type 0
  AreDecoded end = Unit
  AreDecoded (field k v d) = IsDecoded v × AreDecoded d

  pub AllDecoded : Items → Type 0
  AllDecoded nil = Unit
  AllDecoded (cons v vs) = IsDecoded v × AllDecoded vs

-- A value that the JSON encoder prints as ordinary JSON: no `bson.D`, which it would print as a
-- list of keys and values, no `bson.A`, no date
-- and no nil map or slice, at every depth.
unfoldable mutual
  pub IsPlain : Value → Type 0
  IsPlain (date ms) = ⊥
  IsPlain (time t) = ⊥
  IsPlain (obj doc_d d) = ⊥
  IsPlain (obj k d) = ArePlain d
  IsPlain (nil_obj k) = ⊥
  IsPlain (nil_arr k) = ⊥
  IsPlain (arr bson_a vs) = ⊥
  IsPlain (arr k vs) = AllPlain vs
  IsPlain v = Unit

  pub ArePlain : Fields → Type 0
  ArePlain end = Unit
  ArePlain (field k v d) = IsPlain v × ArePlain d

  pub AllPlain : Items → Type 0
  AllPlain nil = Unit
  AllPlain (cons v vs) = IsPlain v × AllPlain vs

put-ArePlain : (k : String) (v : Value) (d : Fields) → IsPlain v → ArePlain d → ArePlain (put k v d)
unfolding put IsPlain
put-ArePlain k v end hv hd = (hv, tt)
put-ArePlain k v (field j w d) hv (hw, hd) = elim (Bool-cases (j == k)) [
  | inl same ↦ rw same (hv, hd)
  | inr differ ↦ rw differ (hw, put-ArePlain k v d hv hd)
]

put_all-ArePlain : (acc d : Fields) → ArePlain acc → ArePlain d → ArePlain (put_all acc d)
unfolding put_all IsPlain
put_all-ArePlain acc end ha hd = ha
put_all-ArePlain acc (field k v d) ha (hv, hd) =
    put_all-ArePlain (put k v acc) d (put-ArePlain k v acc hv ha) hd

to_map-ArePlain : (d : Fields) → ArePlain d → ArePlain (to_map d)
unfolding to_map IsPlain
to_map-ArePlain d h = put_all-ArePlain end d tt h

module _ (format : Format) where
  mutual
    unfolding json_document IsDecoded IsPlain

    json_document-IsPlain_at : (v : Value) → IsDecoded v → IsPlain (json_document format v)
    json_document-IsPlain_at (obj doc_d d) h =
        to_map-ArePlain (json_fields format d) (json_fields-plain d h)
    json_document-IsPlain_at (obj doc_m d) h = json_fields-plain d h
    json_document-IsPlain_at (obj go_map d) h = absurd h
    json_document-IsPlain_at (arr bson_a vs) h = json_items-plain vs h
    json_document-IsPlain_at (arr go_slice vs) h = absurd h
    json_document-IsPlain_at (nil_obj k) h = absurd h
    json_document-IsPlain_at (nil_arr k) h = absurd h
    json_document-IsPlain_at (date ms) h = tt
    json_document-IsPlain_at _ h = tt

    json_fields-plain : (d : Fields) → AreDecoded d → ArePlain (json_fields format d)
    json_fields-plain end h = tt
    json_fields-plain (field k v d) (hv, hd) =
        (json_document-IsPlain_at v hv, json_fields-plain d hd)

    json_items-plain : (vs : Items) → AllDecoded vs → AllPlain (json_items format vs)
    json_items-plain nil h = tt
    json_items-plain (cons v vs) (hv, hvs) =
        (json_document-IsPlain_at v hv, json_items-plain vs hvs)

  -- Whatever the driver decoded, the JSON form holds no `bson.D`, no `bson.A` and no date at any
  -- depth.
  pub json_document-IsPlain : (v : Value) → IsDecoded v → IsPlain (json_document format v)
  json_document-IsPlain v h = json_document-IsPlain_at v h
