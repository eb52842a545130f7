-- ===== src/Jobs/Invariant.antt =====
-- What every row of report_job has, whatever calls have been made: the checks of its table, and
-- attempts that stay within the request's.
use amz_command_center.Base.{
  Bool, Option, String, arith, is_blank, is_some, leb, ltb, member, not, refl, true, ℕ, ◌&&◌, ◌≡◌,
  ◌⊎◌,
}
use amz_command_center.Number.{ticks}
use amz_command_center.Jobs.Tables.{
  Job, JobStatus, Scope, canceled, failed, is_status, queued, running, succeeded, supported_formats,
}
use amz_command_center.Jobs.Running.{
  claimed, finished, is_claimable, is_held, is_retryable, requeued,
}

-- What the status says of the attempts made and of the times.
abbrev pub fits_attempts : JobStatus → ℕ → ℕ → Bool
fits_attempts queued attempt max = ltb attempt max
fits_attempts running attempt max = leb 1 attempt && leb attempt max
fits_attempts _ attempt max = leb attempt max

abbrev pub fits_times : {A B C : Type 0} → JobStatus → Option A → Option B → Option C → Bool
fits_times queued worker started finished =
    not (is_some worker) && not (is_some started) && not (is_some finished)
fits_times running worker started finished =
    is_some worker && is_some started && not (is_some finished)
fits_times _ worker started finished = is_some finished

-- The request's own checks.
abbrev pub fits_scope : {W : Type 0} → Scope W → Bool
fits_scope s =
    member s.output_format supported_formats
    && leb s.date_from s.date_to
    && leb 1 s.definition_version
    && leb 1 s.max_attempts
    && leb s.max_attempts 10

unfoldable pub is_sound : {W : Type 0} → Job W → Bool
unfolding member
is_sound j =
    fits_attempts j.status j.attempt j.scope.max_attempts
    && fits_times j.status j.worker_id j.started_at j.finished_at
    && fits_scope j.scope
    && not (is_blank j.idempotency_key)

abbrev pub IsSound : {W : Type 0} → Job W → Type 0
IsSound j = is_sound j ≡ true

pub is_status-eq : (s t : JobStatus) → is_status s t ≡ true → s ≡ t
unfolding is_status
is_status-eq queued queued e = refl
is_status-eq running running e = refl
is_status-eq succeeded succeeded e = refl
is_status-eq failed failed e = refl
is_status-eq canceled canceled e = refl
is_status-eq _ _ e = cc

module _ {W : Type 0} where
  pub claimed-IsSound :
      (tenant id worker : String) (now : ℕ) (j : Job W)
      → is_claimable tenant id j ≡ true
      → IsSound j
      → IsSound (claimed worker now j)
  unfolding is_sound
  claimed-IsSound tenant id worker now j e h = ground (arith, is_status-eq j.status queued)

  pub finished-IsSound :
      (tenant id worker : String) (target : JobStatus) (now : ℕ) (error : Option String) (j : Job W)
      → (target ≡ succeeded) ⊎ (target ≡ failed)
      → is_held tenant id worker j ≡ true
      → IsSound j
      → IsSound (finished target now error j)
  unfolding is_sound
  finished-IsSound tenant id worker target now error j d e h =
      ground (arith, is_status-eq j.status running)

  pub requeued-IsSound :
      (tenant id : String) (at : ℕ) (j : Job W)
      → is_retryable tenant id j ≡ true
      → IsSound j
      → IsSound (requeued at j)
  unfolding is_sound
  requeued-IsSound tenant id at j e h = ground (arith, is_status-eq j.status failed)
