-- ===== src/Base/Rows/Laws.antt =====
-- Laws of the statements on a table.
use mathlib.Core.Path.{◌≡◌, refl}
use mathlib.Core.Bool.{Bool, true, false}
use mathlib.Core.Option.{Option, none, some}
use mathlib.Core.List.{List, [], ◌∷◌, ◌++◌}
use native.Mathlib.Omega.{arith}
use mathlib.Core.Logic.{inl, inr}
use poi_hub.Base.Tests.{Bool-cases, if◌then◌else◌}
use poi_hub.Base.Rows.{select, find, update, write, any, All, insert_by, sort_by}

-- what an update does to one row
abbrev pub changed {ℓ} : {A : Type ℓ} → (A → Bool) → (A → A) → A → A
changed p f x = if p x then f x else x

abbrev changed? {ℓ} : {A : Type ℓ} → (A → Bool) → (A → A) → Option A → Option A
changed? p f none = none
changed? p f (some x) = some (changed p f x)

-- no two rows are the same
abbrev pub Distinct {ℓ} : {A : Type ℓ} → (A → A → Bool) → List A → Type 0
Distinct same [] = Unit
Distinct same (x ∷ xs) = (any (same x) xs ≡ false) × Distinct same xs

module _ {ℓ} {A : Type ℓ} where
  -- An update that leaves what the lookup tests changes the row that the lookup finds.
  pub find-update :
      (q p : A → Bool) (f : A → A)
      → ((x : A) → q (f x) ≡ q x)
      → (xs : List A) → find q (update p f xs) ≡ changed? p f (find q xs)
  find-update q p f keep [] = refl
  find-update q p f keep (x ∷ xs) = ground (arith, keep x, find-update q p f keep xs)

  pub find-test : (p : A → Bool) (xs : List A) (x : A) → find p xs ≡ some x → p x ≡ true
  find-test p [] x h = cc
  find-test p (y ∷ xs) x h = ground (arith, find-test p xs x)

  pub find-append :
      (p : A → Bool) (xs : List A) (y : A)
      → find p (xs ++ y ∷ [])
        ≡ elim (find p xs) [ some x ↦ some x | none ↦ if p y then some y else none ]
  find-append p [] y = refl
  find-append p (x ∷ xs) y = ground (arith, find-append p xs y)

  -- A row that a test passes first passes a narrower test first, if it passes it.
  pub find_narrow :
      (p q : A → Bool)
      → ((x : A) → q x ≡ true → p x ≡ true)
      → (xs : List A) (x : A) → find p xs ≡ some x
      → q x ≡ true
      → find q xs ≡ some x
  find_narrow p q h [] x e t = cc
  find_narrow p q h (y ∷ xs) x e t = ground (arith, h y, find_narrow p q h xs x)

  -- A write by a narrower test changes the row that the lookup finds, if that test passes it.
  pub find-write :
      (q p : A → Bool) (f : A → A)
      → ((x : A) → q (f x) ≡ q x)
      → ((x : A) → p x ≡ true → q x ≡ true)
      → (xs : List A) → find q (write p f xs) ≡ changed? p f (find q xs)
  find-write q p f keep narrow [] = refl
  find-write q p f keep narrow (x ∷ xs) =
      ground (arith, keep x, narrow x, find-write q p f keep narrow xs)

  -- A write to rows that the lookup passes over is not seen.
  pub find-write_apart :
      (q p : A → Bool) (f : A → A)
      → ((x : A) → q (f x) ≡ q x)
      → ((x : A) → p x ≡ true → q x ≡ false)
      → (xs : List A) → find q (write p f xs) ≡ find q xs
  find-write_apart q p f keep apart [] = refl
  find-write_apart q p f keep apart (x ∷ xs) =
      ground (arith, keep x, apart x, find-write_apart q p f keep apart xs)

  -- A write that turns rows which the lookup passes over into such rows is not seen.
  pub find-write_unseen :
      (q p : A → Bool) (f : A → A)
      → ((x : A) → p x ≡ true → q x ≡ false)
      → ((x : A) → p x ≡ true → q (f x) ≡ false)
      → (xs : List A) → find q (write p f xs) ≡ find q xs
  find-write_unseen q p f old new [] = refl
  find-write_unseen q p f old new (x ∷ xs) =
      ground (arith, old x, new x, find-write_unseen q p f old new xs)

  -- A lookup that found nothing finds the row that a write has turned to its liking.
  pub find-write_new :
      (q p : A → Bool) (f : A → A)
      → ((x : A) → p x ≡ true → q (f x) ≡ true)
      → (xs : List A) (x : A) → find q xs ≡ none
      → find p xs ≡ some x
      → find q (write p f xs) ≡ some (f x)
  find-write_new q p f new [] x miss e = cc
  find-write_new q p f new (y ∷ xs) x miss e = ground (arith, new y, find-write_new q p f new xs x)

  pub select-find :
      (p : A → Bool) (xs : List A) (x : A) (rest : List A)
      → select p xs ≡ x ∷ rest
      → find p xs ≡ some x
  select-find p [] x rest e = cc
  select-find p (y ∷ xs) x rest e = ground (arith, select-find p xs x rest)

  -- A query passes over what is appended, or written, if it passes over the row.
  pub select-append :
      (q : A → Bool) (xs : List A) (y : A) → q y ≡ false → select q (xs ++ y ∷ []) ≡ select q xs
  select-append q [] y h = ground arith
  select-append q (x ∷ xs) y h = ground (arith, select-append q xs y h)

  pub select-write :
      (q p : A → Bool) (f : A → A) (xs : List A) (x : A)
      → find p xs ≡ some x
      → q x ≡ false
      → q (f x) ≡ false
      → select q (write p f xs) ≡ select q xs
  select-write q p f [] x e h k = refl
  select-write q p f (y ∷ xs) x e h k = ground (arith, select-write q p f xs x)

  -- A row that is written in place of the one that the lookup finds is found.
  pub find-write_self :
      (q : A → Bool) (y : A) (xs : List A) (x : A)
      → find q xs ≡ some x
      → q y ≡ true
      → find q (write q (λ _. y) xs) ≡ some y
  find-write_self q y [] x e h = cc
  find-write_self q y (z ∷ xs) x e h = ground (arith, find-write_self q y xs x)

  pub find-none : (p : A → Bool) (xs : List A) → any p xs ≡ false → find p xs ≡ none
  find-none p [] h = refl
  find-none p (x ∷ xs) h = ground (arith, find-none p xs)

  pub none-any : (p : A → Bool) (xs : List A) → find p xs ≡ none → any p xs ≡ false
  none-any p [] h = refl
  none-any p (x ∷ xs) h = ground (arith, none-any p xs)

  pub some-any : (p : A → Bool) (xs : List A) (x : A) → find p xs ≡ some x → any p xs ≡ true
  some-any p [] x h = cc
  some-any p (y ∷ xs) x h = ground (arith, some-any p xs x)

  pub find-any :
      (p q : A → Bool) (xs : List A) (x : A) → find p xs ≡ some x → q x ≡ true → any q xs ≡ true
  find-any p q [] x e h = cc
  find-any p q (y ∷ xs) x e h = ground (arith, find-any p q xs x)

  pub any-find : (p : A → Bool) (xs : List A) → any p xs ≡ true → (x : A) × (find p xs ≡ some x)
  any-find p [] h = absurd (cc)
  any-find p (x ∷ xs) h = elim (Bool-cases (p x)) [
    | inl t ↦ (x, ground arith)
    | inr t ↦ let (y, e) = any-find p xs (ground arith) in (y, ground arith)
  ]

  -- If no row passes, nothing changes.
  pub update-none : (p : A → Bool) (f : A → A) (xs : List A) → any p xs ≡ false → update p f xs ≡ xs
  update-none p f [] h = refl
  update-none p f (x ∷ xs) h = ground (arith, update-none p f xs)

  pub any-append :
      (p : A → Bool) (xs : List A) (y : A)
      → any p xs ≡ false
      → p y ≡ false
      → any p (xs ++ y ∷ []) ≡ false
  any-append p [] y h e = ground arith
  any-append p (x ∷ xs) y h e = ground (arith, any-append p xs y)

pub select-All {ℓ} : {A : Type ℓ} (q : A → Bool) (xs : List A) → All (λ x. q x ≡ true) (select q xs)
select-All q [] = tt
select-All q (x ∷ xs) = elim (Bool-cases (q x)) [
  | inl t ↦ rw t (t, select-All q xs)
  | inr t ↦ rw t (select-All q xs)
]

module _ {ℓ κ} {A : Type ℓ} (P : A → Type κ) where
  pub All-update :
      (p : A → Bool) (f : A → A)
      → ((x : A) → p x ≡ true → P x → P (f x))
      → (xs : List A) → All P xs
      → All P (update p f xs)
  All-update p f step [] h = tt
  All-update p f step (x ∷ xs) h = (one (p x) refl, All-update p f step xs h.1)
    where
      one : (b : Bool) → p x ≡ b → P (if p x then f x else x)
      one true e = rw e (step x e h.0)
      one false e = rw e h.0

  pub All-write :
      (p : A → Bool) (f : A → A) (xs : List A)
      → ((x : A) → find p xs ≡ some x → P x → P (f x))
      → All P xs
      → All P (write p f xs)
  All-write p f [] step h = tt
  All-write p f (x ∷ xs) step h = elim (Bool-cases (p x)) [
    | inl t ↦ rw t (step x (rw t) h.0, h.1)
    | inr t ↦ rw t (h.0, All-write p f xs (λ y e. step y (rw t e)) h.1)
  ]

  pub All-append : (xs : List A) (y : A) → All P xs → P y → All P (xs ++ y ∷ [])
  All-append [] y h e = (e, tt)
  All-append (x ∷ xs) y h e = (h.0, All-append xs y h.1 e)

  pub All-find : (q : A → Bool) (xs : List A) (x : A) → All P xs → find q xs ≡ some x → P x
  All-find q [] x h e = absurd (cc)
  All-find q (y ∷ xs) x h e = elim (Bool-cases (q y)) [
    | inl t ↦ let same : y ≡ x = ground arith in rw (← same) h.0
    | inr t ↦ All-find q xs x h.1 (ground arith)
  ]

  pub All-both : (xs ys : List A) → All P xs → All P ys → All P (xs ++ ys)
  All-both [] ys h k = k
  All-both (x ∷ xs) ys h k = (h.0, All-both xs ys h.1 k)

  -- The rows that a query returns pass its test.
  pub All-select :
      (q : A → Bool) (xs : List A) → All P xs → All (λ x. P x × (q x ≡ true)) (select q xs)
  All-select q [] h = tt
  All-select q (x ∷ xs) h = elim (Bool-cases (q x)) [
    | inl t ↦ rw t ((h.0, t), All-select q xs h.1)
    | inr t ↦ rw t (All-select q xs h.1)
  ]

module _ {ℓ κ} {A : Type ℓ} (P : A → Type κ) (before : A → A → Bool) where
  All-insert_by : (x : A) (xs : List A) → P x → All P xs → All P (insert_by before x xs)
  All-insert_by x [] h k = (h, tt)
  All-insert_by x (y ∷ ys) h k = elim (Bool-cases (before y x)) [
    | inl t ↦ rw t (k.0, All-insert_by x ys h k.1)
    | inr t ↦ rw t (h, k)
  ]

  -- What holds of every row holds of every row in order.
  pub All-sort_by : (xs : List A) → All P xs → All P (sort_by before xs)
  All-sort_by [] h = tt
  All-sort_by (x ∷ xs) h = All-insert_by x (sort_by before xs) h.0 (All-sort_by xs h.1)

module _ {ℓ} {A : Type ℓ} (same : A → A → Bool) where
  -- A new row keeps the rows distinct, if none there is the same.
  pub Distinct-append :
      (xs : List A) (y : A)
      → Distinct same xs
      → any (λ x. same x y) xs ≡ false
      → Distinct same (xs ++ y ∷ [])
  Distinct-append [] y h e = (refl, tt)
  Distinct-append (x ∷ xs) y h e =
      (any-append (same x) xs y h.0 (ground arith), Distinct-append xs y h.1 (ground arith))
