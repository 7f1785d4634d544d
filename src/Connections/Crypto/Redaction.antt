-- ===== src/Connections/Crypto/Redaction.antt =====
-- What the redaction of backend/poi_admin/connections/crypto.py leaves of a value.
use poi_hub.Base.{
  String, ◌≡◌, refl, ap₂, and_left, and_right, Bool, true, false, ◌&&◌, Option, none, some, arith,
  ◌==◌, eq_iff, if◌then◌else◌,
}
use poi_hub.Base.Json.{
  Json, null, bool, int, str, arr, obj, Items, nil, cons, Fields, end, field, get, IsDict,
  IsDictItems, IsDictFields,
}
use poi_hub.Connections.Crypto.{is_sensitive, marker, redact_secrets, redact_items, redact_fields}

-- At every depth, the value under a sensitive key is the marker.
mutual
  pub is_clean : Json → Bool
  is_clean (obj d) = is_clean_fields d
  is_clean (arr xs) = is_clean_items xs
  is_clean value = true

  pub is_clean_items : Items → Bool
  is_clean_items nil = true
  is_clean_items (cons x xs) = is_clean x && is_clean_items xs

  pub is_clean_fields : Fields → Bool
  is_clean_fields end = true
  is_clean_fields (field k v r) =
      (if is_sensitive k then is_marker v else is_clean v) && is_clean_fields r

  is_marker : Json → Bool
  is_marker (str s) = s == "[REDACTED]"
  is_marker v = false

mutual
  unfolding is_clean redact_secrets

  clean : (j : Json) → is_clean (redact_secrets j) ≡ true
  clean null = refl
  clean (bool b) = refl
  clean (int n) = refl
  clean (str s) = refl
  clean (arr xs) = clean_items xs
  clean (obj d) = clean_fields d

  clean_items : (xs : Items) → is_clean_items (redact_items xs) ≡ true
  clean_items nil = refl
  clean_items (cons x xs) = ground (arith, clean x, clean_items xs)

  clean_fields : (d : Fields) → is_clean_fields (redact_fields d) ≡ true
  clean_fields end = refl
  clean_fields (field k v r) = ground (arith, clean v, clean_fields r)

marker_only : (v : Json) → is_marker v ≡ true → marker ≡ v
unfolding is_clean
marker_only null h = cc
marker_only (bool b) h = cc
marker_only (int n) h = cc
marker_only (str s) h = ground (arith, eq_iff s "[REDACTED]")
marker_only (arr xs) h = cc
marker_only (obj d) h = cc

fixed_value :
    (sensitive : Bool) (v v' : Json)
    → (is_clean v ≡ true → v' ≡ v)
    → (if sensitive then is_marker v else is_clean v) ≡ true
    → (if sensitive then marker else v') ≡ v
fixed_value true v v' same h = marker_only v h
fixed_value false v v' same h = same h

if-IsDict : (b : Bool) (v : Json) → IsDict v → IsDict (if b then marker else v)
if-IsDict true v h = tt
if-IsDict false v h = h

mutual
  unfolding is_clean redact_secrets

  fixed : (j : Json) → is_clean j ≡ true → redact_secrets j ≡ j
  fixed null h = refl
  fixed (bool b) h = refl
  fixed (int n) h = refl
  fixed (str s) h = refl
  fixed (arr xs) h = ground (arith, fixed_items xs h)
  fixed (obj d) h = ground (arith, fixed_fields d h)

  fixed_items : (xs : Items) → is_clean_items xs ≡ true → redact_items xs ≡ xs
  fixed_items nil h = refl
  fixed_items (cons x xs) h = ap₂ cons (fixed x (and_left _ _ h)) (fixed_items xs (and_right _ _ h))

  fixed_fields : (d : Fields) → is_clean_fields d ≡ true → redact_fields d ≡ d
  fixed_fields end h = refl
  fixed_fields (field k v r) h =
      ap₂ (field k) (fixed_value (is_sensitive k) v (redact_secrets v) (fixed v) (and_left _ _ h))
        (fixed_fields r (and_right _ _ h))

-- Whatever the value, its redacted copy shows the marker, and nothing else, under every
-- sensitive key at every depth, and redacting the copy again changes nothing.
pub redact_secrets-clean :
    (j : Json)
    → (is_clean (redact_secrets j) ≡ true) × (redact_secrets (redact_secrets j) ≡ redact_secrets j)
redact_secrets-clean j = (clean j, fixed (redact_secrets j) (clean j))

-- A key of a redacted dictionary holds the marker if it is sensitive, else the redacted value.
pub redacted : String → Option Json → Option Json
redacted k none = none
redacted k (some v) = some (if is_sensitive k then marker else redact_secrets v)

-- Redaction keeps the keys of a dictionary: a key is present in the copy exactly when it is
-- present in the original, with the marker if it is sensitive and its own value redacted if not.
pub get-redact_fields : (k : String) (d : Fields) → get k (redact_fields d) ≡ redacted k (get k d)
unfolding redact_secrets redacted
get-redact_fields k end = refl
get-redact_fields k (field j v r) = ground (arith, eq_iff j k, get-redact_fields k r)

mutual
  unfolding redact_secrets redacted

  keeps : (j : Json) → IsDict j → IsDict (redact_secrets j)
  keeps null h = tt
  keeps (bool b) h = tt
  keeps (int n) h = tt
  keeps (str s) h = tt
  keeps (arr xs) h = keeps_items xs h
  keeps (obj d) h = keeps_fields d h

  keeps_items : (xs : Items) → IsDictItems xs → IsDictItems (redact_items xs)
  keeps_items nil h = tt
  keeps_items (cons x xs) h = (keeps x h.0, keeps_items xs h.1)

  keeps_fields : (d : Fields) → IsDictFields d → IsDictFields (redact_fields d)
  keeps_fields end h = tt
  keeps_fields (field k v r) h = (
    ground (arith, get-redact_fields k r),
    if-IsDict (is_sensitive k) (redact_secrets v) (keeps v h.1),
    keeps_fields r h.2,
  )

pub redact_fields-IsDict : (d : Fields) → IsDictFields d → IsDictFields (redact_fields d)
redact_fields-IsDict d h = keeps_fields d h
