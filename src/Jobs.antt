-- ===== src/Jobs.antt =====
-- app/services/verification_queue.py: the queue of verification jobs. What a job does to its citations
-- (captures over HTTP, the quote check, the LLM judge) is a parameter, `JobSteps`: each step ends or
-- raises, and the clock that the capture loop reads is part of it.
pub mod Outcome
pub mod Urls
pub mod Claim
mod Examples
use signal_map.Common.{
  ℕ, zero, suc, ◌+◌, String, Bool, true, false, ◌&&◌, ◌||◌, not, Option, none, some, List, [], ◌∷◌,
  ◌++◌, any, ltb, leb, ◌==◌, if◌then◌else◌, is_before, count, Exc, Result, ok, raised,
  not_implemented, index_error, ◌>>=◌,
}
use text.Mathlib.Text.{◌==◌ as str_eq}
use signal_map.Store.{
  VerificationJob, JobKind, capture, judge, other_kind, JobStatus, job_queued, job_leased,
  job_deferred, job_done, job_error, Reason, job_failed, gave_up, Db, minutes,
}

-- enqueue_judge
unfoldable pub enqueue_judge : Db → ℕ → ℕ → Option ℕ → Db
enqueue_judge db raw_response_id now user = record db {
  jobs =
      db.jobs
      ++ (record {
        id = db.next_job_id;
        raw_response_id = raw_response_id;
        kind = judge;
        status = job_queued;
        priority = 0;
        attempts = 0;
        scheduled_for = now;
        leased_by = none;
        lease_expires_at = none;
        requested_by_user_id = user;
        last_error = none;
        created_at = db.server_now;
        finished_at = none;
      }
          ∷ []);
  next_job_id = db.next_job_id + 1;
}

-- latest_judge_job: ORDER BY id DESC LIMIT 1
unfoldable pub is_judge_of : ℕ → VerificationJob → Bool
is_judge_of raw_response_id job =
    (job.raw_response_id == raw_response_id)
    && elim job.kind [ judge ↦ true | capture ↦ false | other_kind ↦ false ]

abbrev pub newer : VerificationJob → Option VerificationJob → VerificationJob
newer x none = x
newer x (some y) = if ltb x.id y.id then y else x

unfoldable pub latest_judge_job : ℕ → List VerificationJob → Option VerificationJob
latest_judge_job raw_response_id [] = none
latest_judge_job raw_response_id (x ∷ xs) =
    let rest = latest_judge_job raw_response_id xs in
    if is_judge_of raw_response_id x then some (newer x rest) else rest

-- claim_next_job
unfoldable pub is_job_candidate : (ℕ → Bool) → ℕ → VerificationJob → Bool
is_job_candidate is_locked now job =
    elim job.status [ job_queued ↦ true | job_deferred ↦ true | _ ↦ false ]
    && (leb job.scheduled_for now && not (is_locked job.id))

-- ORDER BY priority DESC, scheduled_for ASC
unfoldable pub job_before : VerificationJob → VerificationJob → Bool
job_before a b =
    ltb b.priority a.priority || ((a.priority == b.priority) && ltb a.scheduled_for b.scheduled_for)

abbrev pub earlier_job : VerificationJob → Option VerificationJob → VerificationJob
earlier_job x none = x
earlier_job x (some y) = if job_before y x then y else x

unfoldable pub first_job : (VerificationJob → Bool) → List VerificationJob → Option VerificationJob
first_job p [] = none
first_job p (x ∷ xs) = let rest = first_job p xs in if p x then some (earlier_job x rest) else rest

unfoldable pub lease_job : String → ℕ → ℕ → VerificationJob → VerificationJob
lease_job worker_name now lease_minutes job = record job {
  status = job_leased;
  leased_by = some worker_name;
  lease_expires_at = some (now + minutes lease_minutes);
  attempts = job.attempts + 1;
}

unfoldable pub save_job : VerificationJob → List VerificationJob → List VerificationJob
save_job job [] = []
save_job job (x ∷ xs) = (if x.id == job.id then job else x) ∷ save_job job xs

unfoldable pub claim_next_job : (ℕ → Bool) → Db → String → ℕ → ℕ → Db × Option VerificationJob
unfolding save_job
claim_next_job is_locked db worker_name now lease_minutes =
    elim (first_job (is_job_candidate is_locked now) db.jobs) [
      | none ↦ (db, none)
      | some job ↦ (
        record db { jobs = save_job (lease_job worker_name now lease_minutes job) db.jobs },
        some (lease_job worker_name now lease_minutes job),
      )
    ]

-- release_expired_job_leases
unfoldable pub is_expired_lease : ℕ → VerificationJob → Bool
is_expired_lease now job =
    elim job.status [ job_leased ↦ true | _ ↦ false ] && is_before job.lease_expires_at now

unfoldable pub release_job : ℕ → VerificationJob → VerificationJob
release_job now job =
    if is_expired_lease now job
    then record job { status = job_queued; leased_by = none; lease_expires_at = none }
    else job

unfoldable pub release_jobs : ℕ → List VerificationJob → List VerificationJob
release_jobs now [] = []
release_jobs now (x ∷ xs) = release_job now x ∷ release_jobs now xs

unfoldable pub release_expired_job_leases : Db → ℕ → Db × ℕ
release_expired_job_leases db now =
    (record db { jobs = release_jobs now db.jobs }, count (is_expired_lease now) db.jobs)

-- _citation_urls, of the source_url column of the citations in their order: `if url not in seen`
unfoldable pub add_url : String → List String → List String
add_url url seen = if any (λ u. str_eq u url) seen then seen else seen ++ (url ∷ [])

unfoldable pub collect_urls : List String → List (Option String) → List String
collect_urls seen [] = seen
collect_urls seen (none ∷ urls) = collect_urls seen urls
collect_urls seen (some url ∷ urls) = collect_urls (add_url url seen) urls

unfoldable pub citation_urls : List (Option String) → List String
citation_urls urls = collect_urls [] urls

-- what the steps of one attempt do; `elapsed i` is the time since the start, in seconds, that the
-- capture loop reads after its (i+1)-th capture, whole seconds being enough for `> 60.0`
pub record JobSteps : Type 0 where
  pub source_urls : List (Option String)
  pub capture_url : String → Result (Unit {0})
  pub elapsed : ℕ → ℕ
  pub verify_citations : Bool → Result (Bool × ℕ)  -- by final_attempt: complete, archive_deferred
  pub is_judge_provider : Bool
  pub auto_verify_citations : Bool
  pub judge_citations : Result Bool

abbrev pub max_job_seconds : ℕ
max_job_seconds = 60

abbrev pub max_attempts : ℕ
max_attempts = 3

-- the capture loop: whether its budget cut it short (even after the last URL)
unfoldable pub capture_urls : JobSteps → ℕ → List String → Result Bool
capture_urls steps i [] = ok false
capture_urls steps i (url ∷ urls) =
    let rest = capture_urls steps (suc i) urls in
    elim (steps.capture_url url) [
      | raised e ↦ raised e
      | ok u ↦ if ltb max_job_seconds (steps.elapsed i) then ok true else rest
    ]

-- _maybe_auto_judge
unfoldable pub maybe_auto_judge : JobSteps → Result Bool
maybe_auto_judge steps =
    if not steps.is_judge_provider
    then ok true
    else if not steps.auto_verify_citations
    then ok true
    else steps.judge_citations

-- the body of the `try`, for each kind: (incomplete, archive_deferred)
unfoldable pub run_capture : JobSteps → Bool → Result (Bool × ℕ)
unfolding capture_urls maybe_auto_judge
run_capture steps final_attempt = do
  cut ← capture_urls steps 0 (citation_urls steps.source_urls)
  quote ← steps.verify_citations final_attempt
  judged ← maybe_auto_judge steps
  ok (cut || not (quote.0 && judged), quote.1)

unfoldable pub run_judge : JobSteps → Result (Bool × ℕ)
run_judge steps = do complete ← steps.judge_citations; ok (not complete, 0)

unfoldable pub run_steps : JobSteps → VerificationJob → Result (Bool × ℕ)
unfolding run_capture run_judge
run_steps steps job = elim job.kind [
  | capture ↦ run_capture steps (leb max_attempts job.attempts)
  | _ ↦ run_judge steps
]

-- `_BACKOFF_MINUTES[job.attempts - 1]`, by Python's rules: index -1 is the last, 3 is an IndexError
unfoldable pub job_backoff : ℕ → Result ℕ
job_backoff zero = ok 25
job_backoff (suc zero) = ok 1
job_backoff (suc (suc zero)) = ok 5
job_backoff (suc (suc (suc zero))) = ok 25
job_backoff _ = raised index_error

unfoldable pub defer_job : VerificationJob → ℕ → Result VerificationJob
defer_job job now = do
  wait ← job_backoff job.attempts
  ok (record job { status = job_deferred; scheduled_for = now + minutes wait })

unfoldable pub end_job : VerificationJob → Reason → ℕ → VerificationJob
end_job job reason now = record job {
  status = job_error;
  last_error = some reason;
  finished_at = some now;
}

-- what follows the `try`: an exception, work left over, the archive unavailable, or done
unfoldable pub conclude_job : VerificationJob → ℕ → Result (Bool × ℕ) → Result VerificationJob
unfolding defer_job end_job
conclude_job job now (raised e) =
    if leb max_attempts job.attempts then ok (end_job job (job_failed e) now) else defer_job job now
conclude_job job now (ok (incomplete, archive_deferred)) =
    if incomplete
    then (if leb max_attempts job.attempts
        then ok (end_job job (gave_up job.attempts) now)
        else ok (record job { status = job_deferred; scheduled_for = now + minutes 1 }))
    else if ltb 0 archive_deferred
    then defer_job job now
    else ok (record job { status = job_done; finished_at = some now })

-- the job row that the worker commits; an exception of the commit itself is not modelled
unfoldable pub process_verification_job : JobSteps → VerificationJob → ℕ → Result VerificationJob
unfolding run_steps conclude_job
process_verification_job steps job now = elim job.kind [
  | other_kind ↦ raised not_implemented
  | _ ↦ conclude_job job now (run_steps steps job)
]
