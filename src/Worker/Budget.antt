-- ===== src/Worker/Budget.antt =====
-- The guardrails' check of a batch: what is admitted, and that it stays within the day's limit of
-- changes.
use amz_command_center.Base.{
  All, Bool, List, Result-cases, [], arith, false, inl, inr, length, ok, raised, refl, some, suc, ℕ,
  ◌+◌, ◌<◌, ◌∙◌, ◌∷◌, ◌≡◌, ◌≤◌, ◌⊎◌,
}
use amz_command_center.Number.{Number, ticks}
use amz_command_center.Json.{size}
use amz_command_center.StateMachine.{Action}
use amz_command_center.ApplyGuardrails.{ApplyError, EvidenceRow}
use amz_command_center.ApplyGuardrails.Sound.{validate_within_limits}
use amz_command_center.Guardrails.{TenantGuardConfig, is_diagnostic}
use amz_command_center.Worker.Defs.{Surroundings, Tables, WorkerResult}
use amz_command_center.Worker.Procs.{>>=-eq}
use amz_command_center.Worker.Batches.{
  block_live_actions, block_one, count_failed, validate_live_batch, validation_of,
}
use amz_command_center.Worker.Blocking.{
  IsApproved, IsKept-trans, block_live_actions_one, block_one_total,
}
use amz_command_center.Worker.Checking.{IsChecked}

module _ {W S : Type 0} ⦃n : Number W⦄ (w : Surroundings W S) where
  validate_live_batch-held :
      (a : Action W) (rest : List (Action W)) (cfg : TenantGuardConfig W) (changes : ℕ)
      (increase : W) (result : WorkerResult) (db : Tables W) {x : ApplyError} {created : Bool}
      {db' : Tables W}
      → validation_of w a cfg changes increase ≡ raised x
      → block_one w a (w.apply_error_text x) db ≡ ok (created, db')
      → validate_live_batch w (a ∷ rest) cfg changes increase result db
        ≡ validate_live_batch w rest cfg changes increase (count_failed result created) db'
  unfolding validate_live_batch block_live_actions
  validate_live_batch-held a rest cfg changes increase result db b e =
      rw (validate_live_batch, b)
        (>>=-eq (block_live_actions w (a ∷ []) _ result) _ db
          (block_live_actions_one w a _ result db e))

  validate_live_batch-free :
      (a : Action W) (rest : List (Action W)) (cfg : TenantGuardConfig W) (changes : ℕ)
      (increase : W) (result : WorkerResult) (db : Tables W) {added : W}
      {eligible : List (Action W)} {tally : WorkerResult} {db' : Tables W}
      → validation_of w a cfg changes increase ≡ ok added
      → validate_live_batch w rest cfg (changes + 1) (n.add increase added) result db
        ≡ ok ((eligible, tally), db')
      → validate_live_batch w (a ∷ rest) cfg changes increase result db
        ≡ ok ((a ∷ eligible, tally), db')
  unfolding validate_live_batch
  validate_live_batch-free a rest cfg changes increase result db b e =
      rw (validate_live_batch, b)
        (>>=-eq (validate_live_batch w rest cfg (changes + 1) _ result) _ db e)

  -- The actions of a batch that the guardrails admit, each with those before it counted.
  unfoldable pub admitted : List (Action W) → TenantGuardConfig W → ℕ → W → List (Action W)
  admitted [] cfg changes increase = []
  admitted (a ∷ rest) cfg changes increase = elim (validation_of w a cfg changes increase) [
    | raised e ↦ admitted rest cfg changes increase
    | ok added ↦ a ∷ admitted rest cfg (changes + 1) (n.add increase added)
  ]

  -- The guardrails' check of a batch never faults on approved actions either: it fails just those
  -- that are not admitted, and counts them.
  pub validate_live_batch_total :
      (actions : List (Action W)) (cfg : TenantGuardConfig W) (changes : ℕ) (increase : W)
      (result : WorkerResult) (db : Tables W)
      → All (IsApproved w) actions
      → IsChecked w actions result db
          (validate_live_batch w actions cfg changes increase result db)
          (admitted actions cfg changes increase)
  unfolding validate_live_batch admitted
  validate_live_batch_total [] cfg changes increase result db h =
      (result, db, 0, refl, refl, (omega arith, refl, refl, refl), (refl, refl, refl, refl), tt)
  validate_live_batch_total (a ∷ rest) cfg changes increase result db (p, h) =
      elim (Result-cases (validation_of w a cfg changes increase)) [
        | inl (x, b) ↦
            let (created, db1, e1, k1) = block_one_total w a (w.apply_error_text x) db p in
            let (tally, db2, held, e2, size, (f, g1, g2, g3), k2, left) =
              validate_live_batch_total rest cfg changes increase (count_failed result created) db1
                h in
            rw (admitted, b)
              (
                tally,
                db2,
                held + 1,
                validate_live_batch-held a rest cfg changes increase result db b e1 ∙ e2,
                omega (arith, size),
                (omega (arith, f), g1, g2, g3),
                IsKept-trans w db db1 db2 k1 k2,
                left,
              )
        | inr (added, b) ↦
            let (tally, db1, held, e, size, t, k, left) =
              validate_live_batch_total rest cfg (changes + 1) (n.add increase added) result db h in
            rw (admitted, b)
              (
                tally,
                db1,
                held,
                validate_live_batch-free a rest cfg changes increase result db b e,
                omega (arith, size),
                t,
                k,
                (p, left),
              )
      ]

  admitted_within_limit :
      (actions : List (Action W)) (cfg : TenantGuardConfig W) (today changes : ℕ) (increase : W)
      → All (λ a. is_diagnostic a.action_type ≡ false) actions
      → All
          (λ a. (row : EvidenceRow W) → w.evidence a ≡ some row → row.applied_today ≡ today)
          actions
      → (length (admitted actions cfg changes increase) ≡ 0)
        ⊎ (today + changes + length (admitted actions cfg changes increase)
            ≤ cfg.max_changes_per_day)
  unfolding admitted
  admitted_within_limit [] cfg today changes increase h k = inl refl
  admitted_within_limit (a ∷ rest) cfg today changes increase (p, h) (q, k) =
      elim (Result-cases (validation_of w a cfg changes increase)) [
        | inl (x, b) ↦ rw (admitted, b) (admitted_within_limit rest cfg today changes increase h k)
        | inr (added, b) ↦
            let (row, there, on, room) =
              validate_within_limits ⦃t = w.iso_format⦄ (w.evidence a) a cfg w.now changes increase
                p b in
            let later =
              admitted_within_limit rest cfg today (changes + 1) (n.add increase added) h k in
            rw (admitted, b) (inr (within (q row there) room later))
      ]
    where
      within :
          {left applied limit : ℕ}
          → applied ≡ today
          → applied + changes < limit
          → ((left ≡ 0) ⊎ (today + (changes + 1) + left ≤ limit))
          → today + changes + suc left ≤ limit
      within e r (inl z) = omega (arith, e, r, z)
      within e r (inr l) = omega (arith, l)

  -- What is left of a batch of approved actions keeps to the day's limit of changes: if anything is
  -- left, then the changes that are in the evidence as of today, those counted before the batch and
  -- those left are within it, given that the actions have their evidence of one day and none is a
  -- diagnosis.
  pub validate_live_batch_within_limit :
      (actions : List (Action W)) (cfg : TenantGuardConfig W) (today changes : ℕ) (increase : W)
      (result : WorkerResult) (db : Tables W) {eligible : List (Action W)} {tally : WorkerResult}
      {db' : Tables W}
      → All (IsApproved w) actions
      → All (λ a. is_diagnostic a.action_type ≡ false) actions
      → All
          (λ a. (row : EvidenceRow W) → w.evidence a ≡ some row → row.applied_today ≡ today)
          actions
      → validate_live_batch w actions cfg changes increase result db ≡ ok ((eligible, tally), db')
      → (length eligible ≡ 0) ⊎ (today + changes + length eligible ≤ cfg.max_changes_per_day)
  validate_live_batch_within_limit actions cfg today changes increase result db {eligible} p h k e =
      let (_, _, _, same, _, _, _, _) =
        validate_live_batch_total actions cfg changes increase result db p in
      let left : admitted actions cfg changes increase ≡ eligible = cc in
      rw left at (admitted_within_limit actions cfg today changes increase h k)
