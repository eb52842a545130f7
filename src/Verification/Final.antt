-- ===== src/Verification/Final.antt =====
-- Evidence that is complete is final.
use amz_command_center.Base.{
  >>=-eq-ok, Bool, Bool-cases, List, [], arith, exists, false, inl, inr, not, ok, refl, true,
  update_where, ℕ, ◌&&◌, ◌∷◌, ◌≡◌, ◌⊎◌,
}
use amz_command_center.Number.{Number, ticks}
use amz_command_center.StateMachine.{Action}
use amz_command_center.Verification.Windows.{VerifyWorld}
use amz_command_center.Verification.Snapshots.{
  Evidence, Snapshot, SnapshotStatus, is_complete, measure_horizon, replaced, same_snapshot,
  snapshot_of, upsert_snapshot, verify_horizon,
}

module _ {W : Type 0} where
  -- A row of the table.
  abbrev pub Has : List (Snapshot W) → Snapshot W → Type 0
  Has [] s = ⊥
  Has (x ∷ xs) s = (x ≡ s) ⊎ Has xs s

  -- Complete rows stay.
  abbrev pub IsKept : List (Snapshot W) → List (Snapshot W) → Type 0
  IsKept before after = (s : Snapshot W) → is_complete s.status ≡ true → Has before s → Has after s

  update-Has :
      (p : Snapshot W → Bool) (f : Snapshot W → Snapshot W) (table : List (Snapshot W))
      (s : Snapshot W)
      → p s ≡ false
      → Has table s
      → Has (update_where p f table) s
  unfolding update_where
  update-Has p f [] s e h = elim h [ ]
  update-Has p f (x ∷ xs) s e (inl q) = rw (update_where, q, e) (inl refl)
  update-Has p f (x ∷ xs) s e (inr h) = elim (Bool-cases (p x)) [
    | inl c ↦ rw (update_where, c) (inr (update-Has p f xs s e h))
    | inr c ↦ rw (update_where, c) (inr (update-Has p f xs s e h))
  ]

  upsert-IsKept :
      (new : Snapshot W) (table : List (Snapshot W)) → IsKept table (upsert_snapshot new table)
  unfolding upsert_snapshot
  upsert-IsKept new table s c h = elim (Bool-cases (exists (same_snapshot new) table)) [
    | inl e ↦ rw e (
        update-Has (λ x. same_snapshot new x && not (is_complete x.status)) (replaced new) table s
          (ground arith) h)
    | inr e ↦ rw e (inr h)
  ]

module _ {W : Type 0} ⦃n : Number W⦄ (w : VerifyWorld W) where
  pub verify_horizon-IsKept :
      (a : Action W) (horizon now : ℕ) (db : Evidence W) {status : SnapshotStatus}
      {db' : Evidence W}
      → verify_horizon w a horizon now db ≡ ok (status, db')
      → IsKept db.snapshots db'.snapshots
  unfolding verify_horizon
  verify_horizon-IsKept a horizon now db {status} {db'} e =
      let ((date, m), _, end) = >>=-eq-ok (measure_horizon w db.marts a horizon) _ e in
      let rows : db'.snapshots ≡ upsert_snapshot (snapshot_of w a horizon now date m) db.snapshots =
        ground arith in
      rw rows (upsert-IsKept (snapshot_of w a horizon now date m) db.snapshots)
