-- ===== src/Verification/Unscored.antt =====
-- What a run does where the scorecard is due: its metadata hold a date, which json.dumps refuses.
use amz_command_center.Base.{
  >>=-eq-ok, Bool, Bool-cases, List, Option, Option-cases, Result, String, [], ap, arith, false,
  if◌then◌else◌, inl, inr, is_some, ltb, none, not, ok, raise_if, raised, refl, some, sym, true, ℕ,
  ◌&&◌, ◌+◌, ◌-◌, ◌==◌, ◌>>=◌, ◌||◌, ◌∙◌, ◌∷◌, ◌≡◌,
}
use amz_command_center.Number.{Number, ticks}
use amz_command_center.StateMachine.{Action, applied, asserted, status_eq}
use amz_command_center.Audit.{stored}
use amz_command_center.Verification.Windows.{
  Marts, MetricWindow, VerifyError, VerifyWorld, action_metrics, date_out_of_range, horizons,
  is_horizon, metrics_of, not_serializable, performance_window, unsupported_horizon, window_days,
}
use amz_command_center.Verification.Snapshots.{
  Evidence, Measured, SnapshotStatus, complete, date_of, insufficient, is_complete, is_mature, lift,
  measure, measure_horizon, snapshot_failed, verify_horizon,
}
use amz_command_center.Verification.Scorecard.{
  VerificationResult, checkpoint, fetch_due_snapshots, run_verification, score_pair, verify_action,
  verify_pair, verify_pairs, window_metadata,
}
use amz_command_center.Verification.Final.{IsKept, verify_horizon-IsKept}

-- A guarded call that raises.
raise_under :
    {E A B : Type 0} {c : Bool} {e : E} (m : Result E A) (k : A → Result E B) (other : Result E B)
    → c ≡ true
    → m ≡ raised e
    → (if c then (m >>= k) else other) ≡ raised e
raise_under m k other h q = rw (h, q) refl

module _ {W : Type 0} ⦃n : Number W⦄ (w : VerifyWorld W) where
  mature-data_through :
      (m : MetricWindow W) (start end : ℕ)
      → is_mature m start end ≡ true
      → is_some m.data_through ≡ true
  unfolding is_mature
  mature-data_through m start end e = elim (Option-cases m.data_through) [
    | inl q ↦ ground arith
    | inr (d, q) ↦ rw q refl
  ]

  measure_complete :
      (marts : Marts W) (a : Action W) (start date end : ℕ) {m : Measured W}
      → measure w marts a start date end ≡ ok m
      → is_complete m.status ≡ true
      → (performance_window w marts a start date ≡ ok m.before)
        × (is_some m.before.data_through ≡ true)
  unfolding measure is_complete
  measure_complete marts a start date end {m} e c =
      let (before, e0, e1) = >>=-eq-ok (performance_window w marts a start date) _ e in
      let (after, e2, e3) = >>=-eq-ok (performance_window w marts a date end) _ e1 in
      elim (Bool-cases (not (is_mature before start date) || not (is_mature after date end))) [
        | inl q ↦ ground arith
        | inr q ↦
            let mature : is_mature before start date ≡ true = ground arith in
            let same : before ≡ m.before = ground arith in
            (e0 ∙ ap ok same, rw (← same) (mature-data_through before start date mature))
      ]

  -- A scorecard whose window before the change has a date raises.
  verify_action-raises :
      (a : Action W) (now since : ℕ) (db : Evidence W) {before : MetricWindow W}
      → a.applied_at ≡ some since
      → ltb (date_of since) window_days ≡ false
      → performance_window w db.marts a (date_of since - window_days) (date_of since) ≡ ok before
      → is_some before.data_through ≡ true
      → verify_action w a now db ≡ raised not_serializable
  unfolding verify_action checkpoint window_metadata
  verify_action-raises a now since db e l p d = rw (verify_action, e, l, p, d) refl

  measure_horizon_complete :
      (marts : Marts W) (a : Action W) (horizon : ℕ) {date : ℕ} {m : Measured W}
      → measure_horizon w marts a horizon ≡ ok (date, m)
      → is_complete m.status ≡ true
      → (since : ℕ) × (a.applied_at ≡ some since)
        × (ltb (date_of since) horizon ≡ false)
        × (performance_window w marts a (date_of since - horizon) (date_of since) ≡ ok m.before)
        × (is_some m.before.data_through ≡ true)
  unfolding measure_horizon is_complete
  measure_horizon_complete marts a horizon {date} {m} e c =
      let (_, _, e1) =
        >>=-eq-ok (raise_if (not (is_horizon horizon horizons)) unsupported_horizon) _ e in
      let (since, q, e2) = >>=-eq-ok (lift (asserted a.applied_at)) _ e1 in
      let (_, q3, e3) = >>=-eq-ok (raise_if (ltb (date_of since) horizon) date_out_of_range) _ e2 in
      elim (Option-cases (metrics_of a.action_type action_metrics)) [
        | inl k ↦ ground arith
        | inr (keys, k) ↦
            let around =
              measure w marts a (date_of since - horizon) (date_of since)
                (date_of since + horizon) in
            let pair : Measured W → Result VerifyError (ℕ × Measured W) =
              λ x. ok (date_of since, x) in
            let here : (around >>= pair) ≡ ok (date, m) = ground arith in
            let (m', q4, e4) = >>=-eq-ok around pair here in
            let same : m' ≡ m = ground arith in
            let done =
              measure_complete marts a (date_of since - horizon) (date_of since)
                (date_of since + horizon) (q4 ∙ ap ok same) c in
            (since, applied_lem a.applied_at q, ground arith, done.0, done.1)
      ]
    where
      applied_lem : (o : Option ℕ) {t : ℕ} → lift (asserted o) ≡ ok t → o ≡ some t
      applied_lem none q = cc
      applied_lem (some s) q = ground arith

  -- A step that returns leaves the actions and the journal, keeps what is complete, and counts no
  -- scorecard.
  abbrev pub IsUnscored : VerificationResult → Evidence W → VerificationResult → Evidence W → Type 0
  IsUnscored result db result' db' =
      (db'.rows ≡ db.rows)
      × (db'.journal ≡ db.journal)
      × (result'.verified ≡ result.verified)
      × IsKept db.snapshots db'.snapshots

  -- What `verify_horizon` leaves.
  verify_horizon-rest :
      (a : Action W) (horizon now : ℕ) (db : Evidence W) {status : SnapshotStatus}
      {db' : Evidence W}
      → verify_horizon w a horizon now db ≡ ok (status, db')
      → (db'.rows ≡ db.rows)
        × (db'.journal ≡ db.journal)
        × (db'.marts ≡ db.marts)
        × (date : ℕ) × (m : Measured W) × (measure_horizon w db.marts a horizon ≡ ok (date, m))
        × (m.status ≡ status)
  unfolding verify_horizon
  verify_horizon-rest a horizon now db e =
      let ((date, m), q, end) = >>=-eq-ok (measure_horizon w db.marts a horizon) _ e in
      (ground arith, ground arith, ground arith, date, m, q, ground arith)

  -- The scorecard of a pair whose evidence is complete raises.
  score_pair-raises :
      (a : Action W) (horizon now : ℕ) (result : VerificationResult) (db : Evidence W) {date : ℕ}
      {m : Measured W}
      → (horizon == window_days && status_eq a.status applied) ≡ true
      → measure_horizon w db.marts a horizon ≡ ok (date, m)
      → is_complete m.status ≡ true
      → score_pair w a horizon now result db complete ≡ raised not_serializable
  unfolding score_pair
  score_pair-raises a horizon now result db h q c =
      let seven : horizon ≡ window_days = ground arith in
      let (since, e, l, p, d) =
        measure_horizon_complete db.marts a window_days
          (ap (measure_horizon w db.marts a) (sym seven) ∙ q) c in
      raise_under {c = horizon == window_days && status_eq a.status applied} _ _ _ h
        (verify_action-raises a now since db e l p d)

  score_pair-IsUnscored :
      (a : Action W) (horizon now : ℕ) (result : VerificationResult) (db : Evidence W)
      (status : SnapshotStatus) {date : ℕ} {m : Measured W} {result' : VerificationResult}
      {db' : Evidence W}
      → measure_horizon w db.marts a horizon ≡ ok (date, m)
      → m.status ≡ status
      → score_pair w a horizon now result db status ≡ ok (result', db')
      → (db' ≡ db) × (result'.verified ≡ result.verified)
  unfolding score_pair status_eq is_complete
  score_pair-IsUnscored a horizon now result db insufficient q s e = (ground arith, ground arith)
  score_pair-IsUnscored a horizon now result db snapshot_failed q s e = (ground arith, ground arith)
  score_pair-IsUnscored a horizon now result db complete {date} {m} q s e =
      elim (Bool-cases (horizon == window_days && status_eq a.status applied)) [
        | inl c ↦ ground (arith, score_pair-raises a horizon now result db c q (rw s refl))
        | inr c ↦ (ground arith, ground arith)
      ]

  verify_pair-IsUnscored :
      (a : Action W) (horizon now : ℕ) (result : VerificationResult) (db : Evidence W)
      {result' : VerificationResult} {db' : Evidence W}
      → verify_pair w a horizon now result db ≡ ok (result', db')
      → IsUnscored result db result' db'
  unfolding verify_pair
  verify_pair-IsUnscored a horizon now result db {result'} {db'} e =
      let ((status, evidence), q, scored) = >>=-eq-ok (verify_horizon w a horizon now db) _ e in
      let (rows, journal, marts, date, m, measured, stored) =
        verify_horizon-rest a horizon now db q in
      let (same, count) =
        score_pair-IsUnscored a horizon now result evidence status
          (ap (λ x. measure_horizon w x a horizon) marts ∙ measured) stored scored in
      let kept = verify_horizon-IsKept w a horizon now db q in
      (
        ap (λ (x : Evidence W). x.rows) same ∙ rows,
        ap (λ (x : Evidence W). x.journal) same ∙ journal,
        count,
        rw same kept,
      )

  verify_pairs-IsUnscored :
      (due : List (Action W × ℕ)) (now : ℕ) (result : VerificationResult) (db : Evidence W)
      {result' : VerificationResult} {db' : Evidence W}
      → verify_pairs w due now result db ≡ ok (result', db')
      → IsUnscored result db result' db'
  unfolding verify_pairs
  verify_pairs-IsUnscored [] now result db e =
      (ground arith, ground arith, ground arith, ground arith)
  verify_pairs-IsUnscored ((a, horizon) ∷ due) now result db e =
      let ((counted, evidence), q, rest) = >>=-eq-ok (verify_pair w a horizon now result db) _ e in
      let (rows, journal, count, kept) = verify_pair-IsUnscored a horizon now result db q in
      let (rows', journal', count', kept') =
        verify_pairs-IsUnscored due now counted evidence rest in
      (rows' ∙ rows, journal' ∙ journal, count' ∙ count, λ s c h. kept' s c (kept s c h))

  -- A run of the verification that returns leaves every action and the journal as they were, counts
  -- no scorecard, and keeps every row of evidence that was complete.
  pub run_verification-IsUnscored :
      (tenant : String) (limit now : ℕ) (db : Evidence W) {result : VerificationResult}
      {db' : Evidence W}
      → run_verification w tenant limit now db ≡ ok (result, db')
      → (result.verified ≡ 0)
        × (db'.rows ≡ db.rows)
        × (db'.journal ≡ db.journal)
        × IsKept db.snapshots db'.snapshots
  unfolding run_verification
  run_verification-IsUnscored tenant limit now db e =
      let (rows, journal, count, kept) =
        verify_pairs-IsUnscored (fetch_due_snapshots tenant now limit db) now _ db e in
      (count, rows, journal, kept)
