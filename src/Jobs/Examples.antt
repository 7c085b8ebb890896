-- ===== src/Jobs/Examples.antt =====
-- Tests and instances for app/services/verification_queue.py: the third attempt at a capture job.
use signal_map.Common.{
  ℕ, ◌≤◌, ◌≡◌, String, Bool, true, false, Option, none, some, List, [], ◌∷◌, In, count, Result, ok,
}
use signal_map.Store.{VerificationJob, capture, judge, job_leased, Db}
use signal_map.Queue.Samples.{tick, empty_db, six}
use signal_map.Jobs.{
  JobSteps, citation_urls, release_expired_job_leases, is_expired_lease, release_job,
  is_job_candidate,
}
use signal_map.Jobs.Urls.{IsDistinct, citation_urls-IsDistinct}
use signal_map.Jobs.Claim.{release_expired_job_leases_frees}

abbrev job : VerificationJob
job = record {
  id = 1;
  raw_response_id = 8;
  kind = capture;
  status = job_leased;
  priority = 0;
  attempts = 3;
  scheduled_for = six;
  leased_by = some "w";
  lease_expires_at = some six;
  requested_by_user_id = none;
  last_error = none;
  created_at = six;
  finished_at = none;
}

abbrev judge_job : VerificationJob
judge_job = record job { id = 2; kind = judge }

abbrev urls : List (Option String)
urls = some "a" ∷ none ∷ some "b" ∷ some "a" ∷ []

-- the archive is unavailable for one citation, but not on the last attempt
abbrev quote_outcome : Bool → Result (Bool × ℕ)
quote_outcome true = ok (true, 0)
quote_outcome false = ok (true, 1)

abbrev steps : JobSteps
steps = record {
  source_urls = urls;
  capture_url = λ url. ok tt;
  elapsed = λ i. 30;
  verify_citations = quote_outcome;
  is_judge_provider = false;
  auto_verify_citations = false;
  judge_citations = ok true;
}

citation_urls-IsDistinct_example :
    IsDistinct (citation_urls urls)
    × ((y : String) → In (some y) urls → In y (citation_urls urls))
    × ((y : String) → In y (citation_urls urls) → In (some y) urls)
citation_urls-IsDistinct_example = citation_urls-IsDistinct urls

abbrev none_locked : ℕ → Bool
none_locked i = false

abbrev leased_db : Db
leased_db = record empty_db { jobs = job ∷ [] }

release_expired_job_leases_frees_example :
    let db' = (release_expired_job_leases leased_db tick).0 in
    (count (is_expired_lease tick) db'.jobs ≡ 0)
    × ((y : VerificationJob)
        → In y leased_db.jobs
        → is_expired_lease tick y ≡ true
        → y.scheduled_for ≤ tick
        → none_locked y.id ≡ false
        → In (release_job tick y) db'.jobs
          × (is_job_candidate none_locked tick (release_job tick y) ≡ true))
release_expired_job_leases_frees_example =
    release_expired_job_leases_frees none_locked leased_db tick
