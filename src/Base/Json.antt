-- ===== src/Base/Json.antt =====
-- The JSON values of payloads and summaries. Numbers are integers; a dictionary is its list of
-- entries, in order of insertion.
use Prim.Native.Nat.{ℕ, zero, suc}
use mathlib.Core.Path.{◌≡◌, refl}
use mathlib.Core.Bool.{Bool, true, false, not, ◌&&◌}
use mathlib.Core.Option.{Option, none, some}
use native.Mathlib.Omega.{arith}
use Prim.Native.String.{String}
use text.Mathlib.Text.{◌==◌}
use text.Mathlib.TextEquality.{eq_iff}
use text.Mathlib.TextPositions.{eq_refl}
use poi_hub.Base.Tests.{eqb, if◌then◌else◌}
use poi_hub.Base.Int.{ℤ, pos, negsuc, eqb_ℤ}

mutual
  pub data Json : Type 0 where
    null : Json
    bool : Bool → Json
    int : ℤ → Json
    str : String → Json
    arr : Items → Json
    obj : Fields → Json

  pub data Items : Type 0 where
    nil : Items
    cons : Json → Items → Items

  pub data Fields : Type 0 where
    end : Fields
    field : String → Json → Fields → Fields

-- `d.get(k)`
abbrev pub get : String → Fields → Option Json
get k end = none
get k (field j v r) = if j == k then some v else get k r

abbrev pub get_str : String → Fields → Option String
get_str k d = elim (get k d) [ none ↦ none | some (str s) ↦ some s | some _ ↦ none ]

abbrev of_bool : Bool → ℤ
of_bool b = if b then pos 1 else pos 0

-- `isinstance(value, int)`: a Python `bool` is an `int` too
abbrev pub as_int : Json → Option ℤ
as_int (int n) = some n
as_int (bool true) = some (pos 1)
as_int (bool false) = some (pos 0)
as_int _ = none

abbrev pub get_int : String → Fields → Option ℤ
get_int k d = elim (get k d) [ none ↦ none | some v ↦ as_int v ]

abbrev pub size : Fields → ℕ
size end = zero
size (field k v r) = suc (size r)

-- `==` of two values: `True == 1`, and dictionaries are compared without their order.
unfoldable mutual
  pub json_eq : Json → Json → Bool
  json_eq null null = true
  json_eq (bool a) (bool b) = eqb_ℤ (of_bool a) (of_bool b)
  json_eq (bool a) (int n) = eqb_ℤ (of_bool a) n
  json_eq (int n) (bool a) = eqb_ℤ n (of_bool a)
  json_eq (int m) (int n) = eqb_ℤ m n
  json_eq (str s) (str t) = s == t
  json_eq (arr xs) (arr ys) = items_eq xs ys
  json_eq (obj a) (obj b) = eqb (size a) (size b) && fields_in a b
  json_eq _ _ = false

  pub items_eq : Items → Items → Bool
  items_eq nil nil = true
  items_eq (cons x xs) (cons y ys) = json_eq x y && items_eq xs ys
  items_eq _ _ = false

  -- every entry of the first is an entry of the second
  pub fields_in : Fields → Fields → Bool
  fields_in end d = true
  fields_in (field k v r) d = elim (get k d) [
    | none ↦ false
    | some w ↦ json_eq v w && fields_in r d
  ]

abbrev pub fields_eq : Fields → Fields → Bool
fields_eq a b = eqb (size a) (size b) && fields_in a b

-- `d[k] = v`
unfoldable pub set_field : String → Json → Fields → Fields
set_field k v end = field k v end
set_field k v (field j w r) = if j == k then field k v r else field j w (set_field k v r)

-- `{**d, **changes}`
unfoldable pub apply_changes : Fields → Fields → Fields
unfolding set_field
apply_changes end d = d
apply_changes (field k v r) d = apply_changes r (set_field k v d)

-- Every dictionary has each key once.
abbrev mutual
  pub IsDict : Json → Type 0
  IsDict (arr xs) = IsDictItems xs
  IsDict (obj d) = IsDictFields d
  IsDict _ = Unit

  pub IsDictItems : Items → Type 0
  IsDictItems nil = Unit
  IsDictItems (cons x xs) = IsDict x × IsDictItems xs

  pub IsDictFields : Fields → Type 0
  IsDictFields end = Unit
  IsDictFields (field k v r) = (get k r ≡ none) × IsDict v × IsDictFields r

-- `a` is a part of `b`, key by key
abbrev Within : Fields → Fields → Type 0
Within end d = Unit
Within (field k v r) d = (get k d ≡ some v) × Within r d

Within-skip :
    (k : String) (v : Json) (a b : Fields) → get k a ≡ none → Within a b → Within a (field k v b)
Within-skip k v end b h w = tt
Within-skip k v (field j u r) b h w = ground (arith, eq_iff j k, eq_iff k j, Within-skip k v r b)

Within-self : (d : Fields) → IsDictFields d → Within d d
Within-self end h = tt
Within-self (field k v r) h =
    (ground (arith, eq_iff k k), Within-skip k v r r h.0 (Within-self r h.2))

mutual
  unfolding json_eq

  json_eq_refl : (j : Json) → IsDict j → json_eq j j ≡ true
  json_eq_refl null h = refl
  json_eq_refl (bool b) h = ground arith
  json_eq_refl (int n) h = ground arith
  json_eq_refl (str s) h = eq_refl s
  json_eq_refl (arr xs) h = items_eq_refl xs h
  json_eq_refl (obj d) h = ground (arith, fields_in_refl d d h (Within-self d h))

  items_eq_refl : (xs : Items) → IsDictItems xs → items_eq xs xs ≡ true
  items_eq_refl nil h = refl
  items_eq_refl (cons x xs) h = ground (arith, json_eq_refl x h.0, items_eq_refl xs h.1)

  fields_in_refl : (a d : Fields) → IsDictFields a → Within a d → fields_in a d ≡ true
  fields_in_refl end d h w = refl
  fields_in_refl (field k v r) d h w =
      ground (arith, json_eq_refl v h.1, fields_in_refl r d h.2 w.1)

-- A dictionary equals itself.
pub fields_eq_refl : (d : Fields) → IsDictFields d → fields_eq d d ≡ true
fields_eq_refl d h = ground (arith, fields_in_refl d d h (Within-self d h))

-- Python's truth value
unfoldable pub is_truthy : Json → Bool
is_truthy null = false
is_truthy (bool b) = b
is_truthy (int (pos n)) = not (eqb n 0)
is_truthy (int (negsuc n)) = true
is_truthy (str s) = not (s == "")
is_truthy (arr nil) = false
is_truthy (arr (cons x xs)) = true
is_truthy (obj end) = false
is_truthy (obj (field k v r)) = true

-- `a or b` of two looked up values
abbrev pub or_value : Option Json → Option Json → Option Json
unfolding is_truthy
or_value none b = b
or_value (some v) b = if is_truthy v then some v else b
