-- ===== src/Stores/Creation.antt =====
-- `create_store` and `list_mappings` of backend/poi_admin/stores/service.py.
use poi_hub.Base.{
  String, Bool, true, Option, none, some, List, [], ◌∷◌, ◌++◌, ◌&&◌, ◌||◌, ◌==◌, ◌≡◌, refl, eqb,
  ltb, opt_eq, if◌then◌else◌, arith, Bool-cases, inl, inr, eq_refl,
}
use poi_hub.Base.Rows.{any, select, sort_by}
use poi_hub.Base.Text.{strip_text}
use poi_hub.Base.Json.{Json, null, str, end, field}
use poi_hub.Base.Result.{Result, ok}
use poi_hub.Stores.Model.{Store, Mapping, StoreError, refuse, code_of, is_active}
use poi_hub.Stores.Editing.{mask_phone}
use poi_hub.Stores.Candidates.{earlier_text}

-- what a caller of `create_store` gives; the coordinates are JSON numbers or null
record NewStore : Type 0 where
  pub code : String
  pub name : String
  pub address : String
  pub contact_name : Option String
  pub contact_phone : Option String
  pub province : Option String
  pub city : Option String
  pub district : Option String
  pub latitude : Json
  pub longitude : Json
  pub status : String

abbrev or_null : Option String → Json
or_null none = null
or_null (some s) = str s

abbrev masked_phone : Option String → Option String
unfolding mask_phone
masked_phone none = none
masked_phone (some s) = mask_phone s

unfoldable new_store : String → String → NewStore → Store
unfolding strip_text masked_phone
new_store i tenant r = record {
  id = i;
  tenant_id = tenant;
  columns = field "code" (str (strip_text r.code)) (
      field "name" (str (strip_text r.name)) (
        field "contact_name" (or_null r.contact_name) (
          field "contact_phone_masked" (or_null (masked_phone r.contact_phone)) (
            field "province" (or_null r.province) (
              field "city" (or_null r.city) (
                field "district" (or_null r.district) (
                  field "address" (str (strip_text r.address)) (
                    field "latitude" r.latitude
                      (field "longitude" r.longitude (field "status" (str r.status) end))))))))));
  version = 1;
}

-- another store that the tenant has under the code
unfoldable same_code : Store → Store → Bool
same_code s x = x.tenant_id == s.tenant_id && opt_eq (code_of x) (code_of s)

-- `i` is the id of the new row, and `table` the table at the commit.
unfoldable create_store :
    String → String → NewStore → List Store → Result StoreError (Store × List Store)
unfolding new_store same_code
create_store i tenant r table =
    if any (same_code (new_store i tenant r)) table
    then refuse "store_code_exists" 409
    else ok (new_store i tenant r, table ++ new_store i tenant r ∷ [])

any-last :
    (p : Store → Bool) (xs : List Store) (y : Store) → p y ≡ true → any p (xs ++ y ∷ []) ≡ true
any-last p [] y h = ground arith
any-last p (x ∷ xs) y h = ground (arith, any-last p xs y)

same_code-new :
    (i i' tenant : String) (r r' : NewStore)
    → strip_text r'.code ≡ strip_text r.code
    → same_code (new_store i' tenant r') (new_store i tenant r) ≡ true
unfolding same_code new_store
same_code-new i i' tenant r r' same =
    rw same (ground (arith, eq_refl tenant, eq_refl (strip_text r.code)))

-- `ORDER BY confirmed_at DESC, id`
abbrev later : Mapping → Mapping → Bool
later a b =
    ltb b.confirmed_at a.confirmed_at
    || (eqb a.confirmed_at b.confirmed_at && earlier_text a.id b.id)

unfoldable list_mappings : String → Bool → List Mapping → List Mapping
list_mappings tenant include_history table =
    sort_by later
      (select (λ m. m.tenant_id == tenant && (include_history || is_active m.state)) table)

-- A code that a store has been created under, with whatever blanks around it, is refused in the same
-- tenant from then on, while the stores that were there stand.
create_store_once :
    (i i' tenant : String) (r r' : NewStore) (table table' : List Store) (s : Store)
    → create_store i tenant r table ≡ ok (s, table')
    → strip_text r'.code ≡ strip_text r.code
    → create_store i' tenant r' table' ≡ refuse "store_code_exists" 409
unfolding create_store
create_store_once i i' tenant r r' table table' s e same =
    elim (Bool-cases (any (same_code (new_store i tenant r)) table)) [
      | inl there ↦ absurd (ground arith)
      | inr free ↦
          let left : table' ≡ table ++ new_store i tenant r ∷ [] = ground arith in
          rw
            (
              left,
              create_store,
              any-last (same_code (new_store i' tenant r')) table (new_store i tenant r)
                  (same_code-new i i' tenant r r' same),
            )
            refl
    ]
