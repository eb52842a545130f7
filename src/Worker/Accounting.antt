-- ===== src/Worker/Accounting.antt =====
-- The tally of a run: each action that was fetched is applied or failed, and counted once.
use amz_command_center.Base.{
  All, Bool, Bool-cases, List, Option, Result, String, [], arith, if◌then◌else◌, inl, inr, length,
  length-map, length-take, map-All, ok, raised, refl, select, select-All, sort_by, sort_by-All,
  take, take-All, ℕ, ◌+◌, ◌∙◌, ◌∷◌, ◌≡◌, ◌≤◌,
}
use amz_command_center.Number.{Number, ticks}
use amz_command_center.Json.{Members}
use amz_command_center.StateMachine.{Action, Refusal, applied, approved, status_eq}
use amz_command_center.Worker.Defs.{ActionClient, Fault, Surroundings, Tables, WorkerResult}
use amz_command_center.Worker.Procs.{
  bind_inversion, fetch_approved, fetch_before, is_approved_of, persist_action_failure_alert, pure,
  to_action,
}
use amz_command_center.Worker.Applying.{apply_action, persist_apply_result, record_apply_start}
use amz_command_center.Worker.Batches.{or_refused}
use amz_command_center.Worker.Runs.{send_all, store_result}
use amz_command_center.Worker.Blocking.{IsApproved}

module _ {W S : Type 0} ⦃n : Number W⦄ (w : Surroundings W S) where
  -- The tally after `count` more actions, each of them applied or failed.
  abbrev pub IsCounted : WorkerResult → ℕ → WorkerResult → Type 0
  IsCounted before count after =
      (after.applied + after.failed ≡ before.applied + before.failed + count)
      × (after.scanned ≡ before.scanned)
      × (after.rolled_back ≡ before.rolled_back)

  store_result-IsCounted :
      (live_ads : Bool) (result : WorkerResult)
      (done : Result Refusal (Action W × Option (Members W))) (db : Tables W) {tally : WorkerResult}
      {after : Tables W}
      → store_result w live_ads result done db ≡ ok (tally, after)
      → IsCounted result 1 tally
  unfolding store_result status_eq
  store_result-IsCounted live_ads result done db e =
      let ((updated, response), db1, e1, rest1) = bind_inversion (or_refused done) _ db e in
      let (_, db2, e2, rest2) =
        bind_inversion (persist_apply_result w live_ads updated response) _ db1 rest1 in
      elim (Bool-cases (status_eq updated.status applied)) [
        | inl y ↦ ground (arith, y, rest2)
        | inr y ↦
            let (created, db3, e3, rest3) =
              bind_inversion (persist_action_failure_alert updated) _ db2 (rw y at rest2) in
            ground (arith, rest3)
      ]

  -- How a turn of the loop goes on, and the tables and the provider at the end.
  abbrev pub Ended : Type 0
  Ended = Result Fault (WorkerResult × Tables W) × S

  -- The tally and the tables after one turn, from which the loop goes on to its end.
  abbrev pub IsTurn :
      ActionClient W S → Bool → Action W → List (Action W) → WorkerResult → S → Ended → Type 0
  IsTurn c live_ads a rest result s end =
      (started : Tables W) × (middle : WorkerResult) × (kept : Tables W) × (store_result w live_ads
          result (apply_action w c a s).0 started
        ≡ ok (middle, kept))
      × (send_all w c live_ads rest middle (apply_action w c a s).1 kept ≡ end)

  send_all_inversion :
      (c : ActionClient W S) (live_ads : Bool) (a : Action W) (rest : List (Action W))
      (result : WorkerResult) (s s' : S) (db : Tables W) {done : WorkerResult × Tables W}
      → send_all w c live_ads (a ∷ rest) result s db ≡ (ok done, s')
      → IsTurn c live_ads a rest result s (ok done, s')
  unfolding send_all
  send_all_inversion c live_ads a rest result s s' db {done} e =
      first ((if live_ads then record_apply_start w a else pure tt) db) e
    where
      next :
          (started : Tables W) (r : Result Fault (WorkerResult × Tables W))
          → store_result w live_ads result (apply_action w c a s).0 started ≡ r
          → ◌≡◌ {A = Ended}
              (elim r [
                | raised x ↦ (raised x, (apply_action w c a s).1)
                | ok (t, kept) ↦ send_all w c live_ads rest t (apply_action w c a s).1 kept
              ])
              (ok done, s')
          → IsTurn c live_ads a rest result s (ok done, s')
      next started (raised x) q e = cc
      next started (ok (t, kept)) q e = (started, t, kept, q, e)

      first :
          (r : Result Fault (Unit {0} × Tables W))
          → ◌≡◌ {A = Ended}
              (elim r [
                | raised x ↦ (raised x, s)
                | ok (_, started) ↦
                    elim (store_result w live_ads result (apply_action w c a s).0 started) [
                      | raised x ↦ (raised x, (apply_action w c a s).1)
                      | ok (t, kept) ↦ send_all w c live_ads rest t (apply_action w c a s).1 kept
                    ]
              ])
              (ok done, s')
          → IsTurn c live_ads a rest result s (ok done, s')
      first (raised x) e = cc
      first (ok (_, started)) e = next started _ refl e

  pub send_all-IsCounted :
      (c : ActionClient W S) (live_ads : Bool) (actions : List (Action W)) (result : WorkerResult)
      (s s' : S) (db : Tables W) {tally : WorkerResult} {after : Tables W}
      → send_all w c live_ads actions result s db ≡ (ok (tally, after), s')
      → IsCounted result (length actions) tally
  unfolding send_all
  send_all-IsCounted c live_ads [] result s s' db e = ground arith
  send_all-IsCounted c live_ads (a ∷ rest) result s s' db e =
      let (started, middle, kept, here, later) =
        send_all_inversion c live_ads a rest result s s' db e in
      let (f, g, h) = store_result-IsCounted live_ads result _ started here in
      let (f', g', h') = send_all-IsCounted c live_ads rest middle _ s' kept later in
      (omega (arith, f, f'), g' ∙ g, h' ∙ h)

  -- What a run fetches is approved, and no more than its limit.
  pub fetch_approved-IsApproved :
      (tenant : String) (limit : ℕ) (db : Tables W)
      → All (IsApproved w) (fetch_approved tenant limit db)
        × (length (fetch_approved tenant limit db) ≤ limit)
  unfolding fetch_approved to_action status_eq
  fetch_approved-IsApproved tenant limit db =
      let chosen = select (is_approved_of tenant) db.actions in
      let sorted = sort_by fetch_before chosen in
      (
        map-All _ _ _ (
            take-All _ limit sorted (
              sort_by-All _ fetch_before chosen (
                select-All (λ row. row.action.status ≡ approved) _ db.actions
                  (λ row e. ground arith)))),
        ground (
          arith,
          length-map (λ row. to_action row.action) (take limit sorted),
          length-take limit sorted,
        ),
      )
