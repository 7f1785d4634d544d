-- ===== src/Operations/Lease/Claims.antt =====
-- What a claim of backend/poi_admin/operations/service.py takes, and when it takes nothing.
use poi_hub.Base.{
  ℕ, String, ◌≤◌, ◌≡◌, refl, sym, ap, ◌∙◌, le_refl, le_trans, Bool, true, false, none, some, List,
  [], ◌∷◌, arith, eq_iff, eq_refl, ◌==◌, Bool-cases, Option-cases, inl, inr, ◌↔◌, and_left,
  if◌then◌else◌, ltb,
}
use poi_hub.Base.Rows.{All, find, select, update, any}
use poi_hub.Base.Rows.Laws.{find-update, find-test, find_narrow, some-any, Distinct}
use poi_hub.Operations.Model.{Operation, has_id}
use poi_hub.Operations.Lease.{
  is_claimable, is_target, earliest, candidate, take_lease, claim_row, claim_from, claim,
}

abbrev pub same_id : Operation → Operation → Bool
same_id a b = has_id a.id b

-- A row of the table stands behind its id, also under rows with other ids.
find-skip :
    (x op : Operation) (t : List Operation)
    → any (same_id x) t ≡ false
    → find (has_id op.id) t ≡ some op
    → find (has_id op.id) (x ∷ t) ≡ some op
find-skip x op t new e = elim (Bool-cases (has_id op.id x)) [
  | inl same ↦
      let hit : any (same_id x) t ≡ true =
        rw ((eq_iff x.id op.id).0 same) (some-any (has_id op.id) t op e) in
      absurd (cc)
  | inr differ ↦ rw differ e
]

earliest-find :
    (p : Operation → Bool) (t : List Operation) (op : Operation)
    → Distinct same_id t
    → earliest (select p t) ≡ some op
    → (find (has_id op.id) t ≡ some op) × (p op ≡ true)
unfolding earliest
earliest-find p [] op d e = absurd (cc)
earliest-find p (x ∷ t) op d e = elim (Bool-cases (p x)) [
  | inr miss ↦
      let rest = earliest-find p t op d.1 (ground arith) in (find-skip x op t d.0 rest.0, rest.1)
  | inl hit ↦ elim (Option-cases (earliest (select p t))) [
    | inl alone ↦ let same : x ≡ op = ground arith in rw (← same) (rw (eq_refl x.id), hit)
    | inr (first, later) ↦ elim (Bool-cases (ltb first.created_at x.created_at)) [
      | inl before ↦
          let same : first ≡ op = ground arith in
          let rest = earliest-find p t op d.1 (later ∙ ap some same) in
          (find-skip x op t d.0 rest.0, rest.1)
      | inr after ↦ let same : x ≡ op = ground arith in rw (← same) (rw (eq_refl x.id), hit)
    ]
  ]
]

earliest-none :
    (p : Operation → Bool) (t : List Operation) → earliest (select p t) ≡ none → any p t ≡ false
unfolding earliest
earliest-none p [] e = refl
earliest-none p (x ∷ t) e = elim (Bool-cases (p x)) [
  | inr miss ↦ rw miss (earliest-none p t (ground arith))
  | inl hit ↦ absurd (ground arith)
]

All-le :
    (a b : ℕ) (t : List Operation)
    → a ≤ b
    → All (λ x. b ≤ x.created_at) t
    → All (λ x. a ≤ x.created_at) t
All-le a b [] h k = tt
All-le a b (x ∷ t) h k = (le_trans h k.0, All-le a b t h k.1)

earliest-nil : (t : List Operation) → earliest t ≡ none → t ≡ []
unfolding earliest
earliest-nil [] e = refl
earliest-nil (x ∷ t) e = absurd (ground arith)

-- Nothing that the query returns was created before its first row.
earliest-le :
    (t : List Operation) (op : Operation)
    → earliest t ≡ some op
    → All (λ x. op.created_at ≤ x.created_at) t
unfolding earliest
earliest-le [] op e = tt
earliest-le (x ∷ t) op e = elim (Option-cases (earliest t)) [
  | inl alone ↦
      let same : x ≡ op = ground arith in rw (earliest-nil t alone) (rw same (le_refl _), tt)
  | inr (first, later) ↦
      let rest = earliest-le t first later in
      let le : op.created_at ≤ first.created_at = ground arith in
      (ground arith, All-le op.created_at first.created_at t le rest)
]

-- An update that keeps the ids, of the row with one id, as a lookup by id sees it.
find-claimed :
    (worker : String) (lease now : ℕ) (i j : String) (t : List Operation) (old : Operation)
    → find (has_id i) t ≡ some old
    → is_claimable now old ≡ true
    → find (has_id j) (update (is_target i now) (take_lease worker lease now) t)
      ≡ (if j == i then some (take_lease worker lease now old) else find (has_id j) t)
unfolding is_target take_lease
find-claimed worker lease now i j t old found free = elim (Bool-cases (j == i)) [
  | inl same ↦
      let e : j ≡ i = (eq_iff j i).0 same in
      let mine : has_id i old ≡ true = find-test (has_id i) t old found in
      rw (
        find-update (has_id j) (is_target i now) (take_lease worker lease now) (λ x. refl) t,
        same,
        e,
        found,
        mine,
        free,
      )
  | inr differ ↦
      rw
        (
          find-update (has_id j) (is_target i now) (take_lease worker lease now) (λ x. refl) t,
          differ,
        )
        (elim (Option-cases (find (has_id j) t)) [
          | inl missing ↦ rw missing
          | inr (x, e) ↦
              let named : has_id j x ≡ true = find-test (has_id j) t x e in
              rw e (ground (arith, eq_iff x.id j, eq_iff x.id i, eq_iff j i))
        ])
]

-- What one worker's claim took: a row that was free to take, the earliest created of those, now
-- leased to the worker with one more attempt; every other row is as it was.
pub record Claimed (worker : String) (lease now : ℕ) (t : List Operation) (op : Operation)
    (u : List Operation) : Type 0 where
  pub old : Operation
  pub was : find (has_id op.id) t ≡ some old
  pub free : is_claimable now old ≡ true
  pub taken : op ≡ take_lease worker lease now old
  pub first : All (λ x. old.created_at ≤ x.created_at) (select (is_claimable now) t)
  pub rows : (j : String) → find (has_id j) u ≡ (if j == op.id then some op else find (has_id j) t)

claim_lem :
    (worker : String) (lease now : ℕ) (t : List Operation) (old : Operation)
    → Distinct same_id t
    → candidate now t ≡ some old
    → claim worker lease now t ≡ (
      some (take_lease worker lease now old),
      update (is_target old.id now) (take_lease worker lease now) t,
    )
unfolding claim claim_row is_target candidate
claim_lem worker lease now t old d e =
    let facts = earliest-find (is_claimable now) t old d e in
    let hit : any (is_target old.id now) t ≡ true = some-any (is_target old.id now) t old (
      find_narrow (has_id old.id) (is_target old.id now) (λ x h. and_left _ _ h) t old facts.0
        (ground (arith, find-test (has_id old.id) t old facts.0))) in
    rw (e, claim_from)
      (rw hit
        (rw (find-claimed worker lease now old.id old.id t old facts.0 facts.1, eq_refl old.id)))

claim-none :
    (worker : String) (lease now : ℕ) (t : List Operation)
    → candidate now t ≡ none
    → claim worker lease now t ≡ (none, t)
unfolding claim
claim-none worker lease now t e = rw (e, claim_from)

id-take_lease :
    (worker : String) (lease now : ℕ) (op : Operation) → (take_lease worker lease now op).id ≡ op.id
unfolding take_lease
id-take_lease worker lease now op = refl

select-none : (p : Operation → Bool) (t : List Operation) → any p t ≡ false → select p t ≡ []
select-none p [] h = refl
select-none p (x ∷ t) h = ground (arith, select-none p t)

candidate-none :
    (now : ℕ) (t : List Operation) → any (is_claimable now) t ≡ false → candidate now t ≡ none
unfolding candidate earliest
candidate-none now t h = rw (select-none (is_claimable now) t h)

-- With distinct ids, a claim that returns a row has taken the row that was created first among the
-- claimable ones: it is running for the worker, with a new lease and one more attempt, and a lookup
-- of any other id finds what it found before.
pub claim_takes :
    (worker : String) (lease now : ℕ) (t : List Operation) (op : Operation) (u : List Operation)
    → Distinct same_id t
    → claim worker lease now t ≡ (some op, u)
    → Claimed worker lease now t op u
unfolding take_lease
claim_takes worker lease now t op u d e = elim (Option-cases (candidate now t)) [
  | inl idle ↦ absurd (cc (sym e ∙ claim-none worker lease now t idle))
  | inr (old, found) ↦
      let facts = earliest-find (is_claimable now) t old d (unfold candidate in found) in
      let same = sym (claim_lem worker lease now t old d found) ∙ e in
      let taken : take_lease worker lease now old ≡ op = cc same in
      let table : update (is_target old.id now) (take_lease worker lease now) t ≡ u = cc same in
      let id : op.id ≡ old.id =
        sym (ap (λ (x : Operation). x.id) taken) ∙ id-take_lease worker lease now old in
      record {
        old = old;
        was = rw id facts.0;
        free = facts.1;
        taken = sym taken;
        first = earliest-le (select (is_claimable now) t) old (unfold candidate in found);
        rows = λ j.
            rw (← table, id, ← taken)
              (find-claimed worker lease now old.id j t old facts.0 facts.1);
      }
]

-- With distinct ids, a claim returns no row exactly when no row is free to take, and then it leaves
-- the table as it was.
claim_idle :
    (worker : String) (lease now : ℕ) (t : List Operation)
    → Distinct same_id t
    → (claim worker lease now t ≡ (none, t)) ↔ (any (is_claimable now) t ≡ false)
claim_idle worker lease now t d = (
  λ e. elim (Option-cases (candidate now t)) [
    | inl idle ↦ earliest-none (is_claimable now) t (unfold candidate in idle)
    | inr (old, found) ↦ absurd (cc (sym e ∙ claim_lem worker lease now t old d found))
  ],
  λ h. claim-none worker lease now t (candidate-none now t h),
)
