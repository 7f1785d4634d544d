-- ===== src/Stores/Editing.antt =====
-- `mask_phone`, `update_store` and `archive_store` of backend/poi_admin/stores/service.py.
pub mod Versions
use poi_hub.Base.{
  ℕ, String, ◌+◌, ◌-◌, Bool, true, false, not, Option, none, some, List, [], ◌∷◌, ◌++◌, ◌&&◌, ◌||◌,
  ◌==◌, eqb, leb, opt_eq, is_some, if◌then◌else◌,
}
use poi_hub.Base.Rows.{find, any, update, select, length}
use Prim.Native.Char.{code}
use poi_hub.Base.Text.{strip_text, drop_text, text_length, concat}
use poi_hub.Base.Json.{Json, null, str, Fields, end, field, get, set_field, apply_changes}
use poi_hub.Base.Result.{Result, ok, err, ◌>>=◌, ◌>>◌}
use poi_hub.Stores.Model.{
  Store, Mapping, StoreError, refuse, require, check, is_store, get_store, code_of,
}
use poi_hub.Stores.Mappings.{maps_store, release}

abbrev is_allowed : String → Bool
is_allowed k =
    any (λ a. a == k)
      ("code" ∷ "name" ∷ "contact_name" ∷ "province" ∷ "city" ∷ "district" ∷ "address" ∷ "latitude"
        ∷ "longitude" ∷ "status" ∷ [])

abbrev required_columns : List String
required_columns = "code" ∷ "name" ∷ "address" ∷ "status" ∷ []

unfoldable keep_digits : String → String
keep_digits String.[] = String.[]
keep_digits (String.◌∷◌ c s) =
    let rest = keep_digits s in
    if leb b'0' (code c) && leb (code c) b'9' then String.◌∷◌ c rest else rest

-- `mask_phone`, with the ASCII digits as digits
unfoldable pub mask_phone : String → Option String
unfolding keep_digits drop_text concat
mask_phone value =
    if value == ""
    then none
    else (let compact = keep_digits value in
        some (
          if compact == ""
          then "****"
          else concat "****" (drop_text (text_length compact - 4) compact)))

abbrev stripped : Json → Json
unfolding strip_text
stripped (str s) = str (strip_text s)
stripped v = v

-- the masked phone number of a request, whose schema lets through a text or null
abbrev masked : Json → Json
unfolding mask_phone
masked (str s) = elim (mask_phone s) [ none ↦ null | some m ↦ str m ]
masked _ = null

-- the values that an update writes: the allowed ones, texts stripped, and the masked phone number
unfoldable update_values : Fields → Fields
unfolding strip_text mask_phone
update_values end = end
update_values (field k v r) =
    let rest = update_values r in
    if is_allowed k
    then field k (stripped v) rest
    else if k == "contact_phone"
    then field "contact_phone_masked" (masked v) rest
    else rest

-- the row of the store while it has this version
unfoldable pub has_version : String → String → ℕ → Store → Bool
has_version tenant i version s = is_store tenant i s && eqb s.version version

unfoldable pub edited : ℕ → Fields → Store → Store
unfolding apply_changes update_values
edited version changes s = record s {
  columns = apply_changes (update_values changes) s.columns;
  version = version + 1;
}

is_null : Option Json → Bool
is_null none = true
is_null (some null) = true
is_null (some _) = false

-- what the database refuses: a required column without a value, or a code that the tenant has
unfoldable violates : Store → List Store → Bool
unfolding is_null
violates s table =
    any (λ k. is_null (get k s.columns)) required_columns
    || any (λ x. x.tenant_id == s.tenant_id && not (x.id == s.id) && opt_eq (code_of x) (code_of s))
        table

-- `seen` is the table that the first query reads, and `table` the one that the update runs on.
unfoldable pub update_store :
    String → String → ℕ → Fields → List Store → List Store → Result StoreError (Store × List Store)
unfolding get_store require check has_version edited violates
update_store tenant i version changes seen table = do
  s ← require (get_store tenant i seen) "store_not_found" 404
  check (eqb s.version version) "version_conflict" 409
  row ← require (find (has_version tenant i version) table) "version_conflict" 409
  check (not (violates (edited version changes row) table && is_some (get "code" changes)))
      "store_code_exists" 409
  check (not (violates (edited version changes row) table)) "store_update_invalid" 422
  ok (
    edited version changes row,
    update (has_version tenant i version) (edited version changes) table,
  )

unfoldable pub deactivated : ℕ → Store → Store
deactivated version s = record s {
  columns = set_field "status" (str "inactive") s.columns;
  version = version + 1;
}

-- The store is set inactive, and its active mappings are released.
unfoldable pub archive_store :
    String
    → String
    → ℕ
    → String
    → ℕ
    → List Store × List Mapping
    → Result StoreError (List Store × List Mapping)
unfolding has_version deactivated maps_store release get_store
archive_store tenant i version actor now (stores, mappings) =
    if any (has_version tenant i version) stores
    then ok (
      update (has_version tenant i version) (deactivated version) stores,
      update (maps_store tenant i) (release actor now) mappings,
    )
    else (if is_some (get_store tenant i stores)
        then refuse "version_conflict" 409
        else refuse "store_not_found" 404)
