-- ===== src/Operations/Lease/Exclusion.antt =====
-- While a lease runs, the operation is its holder's alone.
use poi_hub.Base.{
  ℕ, String, ◌+◌, ◌<◌, ◌≡◌, refl, ap, eq_refl, ◌∙◌, Bool, false, Option, some, List, arith, ◌==◌,
  Bool-cases, Option-cases, inl, inr,
}
use poi_hub.Base.Json.{Fields}
use poi_hub.Base.Rows.{find, update, any}
use poi_hub.Base.Rows.Laws.{find-update, Distinct}
use poi_hub.Operations.Model.{Operation, OperationStatus, has_id}
use poi_hub.Operations.Lease.{
  is_claimable, is_target, candidate, take_lease, claim_row, claim, claim_from, is_held,
  renew_lease,
}
use poi_hub.Operations.Lease.Claims.{same_id, claim_takes}
use poi_hub.Operations.Outcome.Reports.{id-fail}
use poi_hub.Operations.Outcome.{Report, is_owned, succeed, fail, mark_succeeded, mark_failed}

-- The row of this id runs for this worker, under a lease that ends at this time.
record IsLeased (i worker : String) (until : ℕ) (op : Operation) (t : List Operation) : Type 0 where
  pub row : find (has_id i) t ≡ some op
  pub running : op.status ≡ OperationStatus.running
  pub holder : op.worker_id ≡ some worker
  pub lease : op.lease_expires_at ≡ some until

update-same :
    (i : String) (op : Operation) (p : Operation → Bool) (f : Operation → Operation)
    (t : List Operation)
    → ((x : Operation) → (f x).id ≡ x.id)
    → p op ≡ false
    → find (has_id i) t ≡ some op
    → find (has_id i) (update p f t) ≡ some op
update-same i op p f t keep miss e =
    find-update (has_id i) p f (λ x. rw (keep x)) t ∙ rw e (rw miss)

module _ (i worker : String) (until : ℕ) (op : Operation) (t : List Operation)
    (leased : IsLeased i worker until op t) where
  -- No claim takes the row before its lease ends, whatever it read.
  claim_from-leased :
      (w : String) (l now : ℕ) (seen : List Operation)
      → now < until
      → find (has_id i) (claim_from w l now seen t).1 ≡ some op
  unfolding claim_from claim_row is_target is_claimable take_lease
  claim_from-leased w l now seen early = elim (Option-cases (candidate now seen)) [
    | inl idle ↦ rw (idle, claim_from) leased.row
    | inr (c, found) ↦
        rw (found, claim_from)
          (elim (Bool-cases (any (is_target c.id now) t)) [
            | inl hit ↦ rw hit (
                update-same i op (is_target c.id now) (take_lease w l now) t (λ x. refl)
                  (ground (arith, leased.lease, leased.running)) leased.row)
            | inr miss ↦ rw miss leased.row
          ])
  ]

  module _ (w : String) (named : w == "" ≡ false) (apart : worker == w ≡ false) where
    is_owned-other : (operation : Operation) → is_owned operation (some w) (some w) op ≡ false
    unfolding is_owned
    is_owned-other operation = ground (arith, leased.holder)

    others-leased :
        (now l jitter : ℕ) (j : String) (operation : Operation) (response : Option Fields)
        (report : Report)
        → (find (has_id i) (renew_lease j w l now t).1 ≡ some op)
          × (find (has_id i) (mark_succeeded operation response (some w) now t) ≡ some op)
          × (find (has_id i) (mark_failed operation report (some w) jitter now t) ≡ some op)
    unfolding renew_lease mark_succeeded mark_failed is_held succeed
    others-leased now l jitter j operation response report = (
      update-same i op (is_held j w) _ t (λ x. refl) (ground (arith, leased.holder)) leased.row,
      rw (named, mark_succeeded)
          (update-same i op (is_owned operation (some w) (some w)) (succeed response now) t
            (λ x. refl) (is_owned-other operation) leased.row),
      rw (named, mark_failed)
          (update-same i op (is_owned operation (some w) (some w))
            (fail operation report jitter now) t (id-fail operation report jitter now)
            (is_owned-other operation) leased.row),
    )

-- The table has distinct ids, and a claim has returned a row. Then, at any time before the lease
-- ends, no claim by anyone, from whatever table it read, changes that row; nor does a worker of
-- another, non-empty name by renewing a lease or reporting a success or a failure.
pub claim_excludes :
    (worker : String) (lease now : ℕ) (t : List Operation) (op : Operation) (u : List Operation)
    (w : String) (l now' jitter : ℕ) (seen : List Operation) (j : String) (operation : Operation)
    (response : Option Fields) (report : Report)
    → Distinct same_id t
    → claim worker lease now t ≡ (some op, u)
    → now' < now + lease
    → w == "" ≡ false
    → worker == w ≡ false
    → (find (has_id op.id) (claim_from w l now' seen u).1 ≡ some op)
      × (find (has_id op.id) (renew_lease j w l now' u).1 ≡ some op)
      × (find (has_id op.id) (mark_succeeded operation response (some w) now' u) ≡ some op)
      × (find (has_id op.id) (mark_failed operation report (some w) jitter now' u) ≡ some op)
unfolding take_lease
claim_excludes worker lease now t op u w l now' jitter seen j operation response report d e early
      named apart =
    let c = claim_takes worker lease now t op u d e in
    let leased : IsLeased op.id worker (now + lease) op u = record {
      row = c.rows op.id ∙ rw (eq_refl op.id);
      running = ap (λ (x : Operation). x.status) c.taken;
      holder = ap (λ (x : Operation). x.worker_id) c.taken;
      lease = ap (λ (x : Operation). x.lease_expires_at) c.taken;
    } in
    let others =
      others-leased op.id worker (now + lease) op u leased w named apart now' l jitter j operation
        response report in
    (
      claim_from-leased op.id worker (now + lease) op u leased w l now' seen early,
      others.0,
      others.1,
      others.2,
    )
