-- ===== src/Tests/Jobs.antt =====
-- A request of a report that is queued, claimed, failed and tried again.
use amz_command_center.Base.{
  String, str_eq, ◌∷◌, arith, if◌then◌else◌, is_blank, All, Option, String, [], exists, false,
  member, none, ok, opt_str_eq, raised, refl, select, some, true, update_where, ℕ, ◌≡◌,
}
use amz_command_center.Base.Int.{pos}
use amz_command_center.Number.{Ticks, ticks}
use amz_command_center.Json.{Members, dict, dict_eq, empty, json_eq, size}
use amz_command_center.Samples.{one_stamp, ticks_repr, token_redactor}
use amz_command_center.Jobs.{
  Strips, Definition, IsSound, Job, JobOp, JobRef, JobStatus, JobWorld, Reports, Scope, claim,
  claim_next_job, claim_row, claimed, enqueue, enqueue_job, fail, finish_job, insert_job,
  is_claimable, is_due_job, is_held, is_status, job_before, job_event, job_status_name, new_job,
  no_running_job, perform_job, queued, ref_of, retry, same_scope, scope_of, start_event, succeed,
  succeeded,
}
use amz_command_center.Jobs.Guard.{IsAccepted, perform_job-IsAccepted, run_jobs, run_jobs-IsSound}
use amz_command_center.Jobs.Leases.{claim_row-exclusive}
use amz_command_center.Jobs.Claims.{claim_next_job-started}
use amz_command_center.HumanControl.{TextCase}

-- `strip` of the spaces in front.
unfoldable strip_left : String → String
strip_left String.[] = ""
strip_left (String.◌∷◌ c s) =
    let rest = strip_left s in if str_eq (String.◌∷◌ c String.[]) " " then rest else String.◌∷◌ c s

instance abbrev stripped_case : TextCase
stripped_case = record { lower = λ s. s; strip = strip_left }

strip_left-Strips : Strips stripped_case
unfolding strip_left is_blank
strip_left-Strips String.[] e = refl
strip_left-Strips (String.◌∷◌ c s) e = let rest = strip_left-Strips s in ground (arith, rest)

abbrev world : JobWorld Ticks
world = record {
  new_id = λ jobs. "j-1";
  database_now = 5;
  clock = 6;
  show = λ k. "1";
  is_locked = λ j. false;
}

abbrev campaigns : Definition Ticks
campaigns = record {
  id = "d-1";
  tenant_id = "t-1";
  code = "campaigns";
  version = 1;
  title = "Campaigns";
  source_contract = "mart-ppc-campaign-daily-v1";
  render_contract_version = 1;
  definition = dict empty;
  is_active = true;
}

abbrev no_jobs : Reports Ticks
no_jobs = record { definitions = campaigns ∷ []; jobs = []; events = [] }

abbrev asked : Scope Ticks
asked = scope_of "campaigns" 1 "u-1" 10 20 none "csv" (pos 2)

abbrev queued_job : Job Ticks
queued_job = new_job world "t-1" "k-1" asked campaigns []

abbrev request : JobOp Ticks
request = enqueue "campaigns" 1 "u-1" "k-1" 10 20 none "csv" (pos 2)

abbrev one_job : Reports Ticks
one_job = record {
  definitions = campaigns ∷ [];
  jobs = queued_job ∷ [];
  events =
      record {
        tenant_id = "t-1";
        job_id = "j-1";
        event_type = "report.queued";
        previous_state = none;
        new_state = queued;
        attempt = 0;
        actor_type = "user";
        actor_id = "u-1";
        dedupe_key = "enqueue";
        metadata = empty;
      }
      ∷ [];
}

run_jobs-IsSound_example :
    All IsSound
      (run_jobs world "t-1"
        (request
          ∷ claim "w-1" none
          ∷ fail "j-1" "w-1" "no disk"
          ∷ retry "j-1" "u-1" none
          ∷ claim "w-2" none
          ∷ succeed "j-1" "w-2" none
          ∷ [])
        no_jobs).jobs
run_jobs-IsSound_example =
    run_jobs-IsSound world "t-1"
      (request
        ∷ claim "w-1" none
        ∷ fail "j-1" "w-1" "no disk"
        ∷ retry "j-1" "u-1" none
        ∷ claim "w-2" none
        ∷ succeed "j-1" "w-2" none
        ∷ [])
      no_jobs strip_left-Strips tt

request_lem : perform_job world "t-1" request no_jobs ≡ ok one_job
unfolding perform_job enqueue_job member insert_job job_event strip_left
request_lem = refl

perform_job-IsAccepted_example : IsAccepted no_jobs.jobs one_job.jobs
perform_job-IsAccepted_example = perform_job-IsAccepted world "t-1" request no_jobs request_lem

due_lem : exists (is_due_job world "t-1" 6) one_job.jobs ≡ true
unfolding is_status
due_lem = refl

claim_next_job-started_example :
    (first : Job Ticks) × (j : Job Ticks) × (t' : Reports Ticks) × (claim_next_job world "t-1" "w-1"
        none one_job
      ≡ ok (some (ref_of (claimed "w-1" 6 j) false), t'))
    × (is_due_job world "t-1" 6 first ≡ true)
    × All (λ other. job_before other first ≡ false) (select (is_due_job world "t-1" 6) one_job.jobs)
    × (is_claimable "t-1" first.id j ≡ true)
    × (t'.jobs ≡ update_where (is_claimable "t-1" first.id) (claimed "w-1" 6) one_job.jobs)
claim_next_job-started_example = claim_next_job-started world "t-1" "w-1" none one_job due_lem

abbrev started : Reports Ticks
started = record one_job {
  jobs = claimed "w-1" 6 queued_job ∷ [];
  events = start_event world "t-1" "w-1" (claimed "w-1" 6 queued_job) ∷ one_job.events;
}

claim_lem :
    claim_row world "t-1" "w-1" 6 "j-1" one_job
    ≡ ok (some (ref_of (claimed "w-1" 6 queued_job) false), started)
unfolding claim_row is_status job_event update_where
claim_lem = refl

unheld_lem : select (is_held "t-1" "j-1" "w-2") one_job.jobs ≡ []
unfolding is_status opt_str_eq
unheld_lem = refl

claim_row-exclusive_example :
    (claim_row world "t-1" "w-2" 7 "j-1" started ≡ ok (none, started))
    × ((target : JobStatus) (error : Option String) (at : Option ℕ) (m : Option (Members Ticks))
        → finish_job world "t-1" "j-1" "w-2" target error at m started ≡ raised no_running_job)
claim_row-exclusive_example =
    claim_row-exclusive world "t-1" "w-1" "w-2" "j-1" 6 7 one_job claim_lem refl unheld_lem

finish_lem :
    (r : JobRef) × (t' : Reports Ticks) × (finish_job world "t-1" "j-1" "w-1" succeeded none none
        none started
      ≡ ok (r, t'))
unfolding finish_job is_status opt_str_eq update_where job_event job_status_name
finish_lem = (_, _, refl)

enqueue_lem :
    enqueue_job world "t-1" "campaigns" 1 "u-1" "k-1" 10 20 none "csv" (pos 2) no_jobs
    ≡ ok (ref_of queued_job true, one_job)
unfolding enqueue_job member insert_job job_event strip_left
enqueue_lem = refl

again_lem :
    enqueue_job world "t-1" "campaigns" 1 "u-1" "k-1" 10 20 none "csv" (pos 2) one_job
    ≡ ok (ref_of queued_job false, one_job)
unfolding enqueue_job member insert_job same_scope dict_eq json_eq size strip_left
again_lem = refl
