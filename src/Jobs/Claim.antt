-- ===== src/Jobs/Claim.antt =====
-- Which job the queue gives: the newest judge job of a response, the best due job, and one whose
-- lease has expired.
use signal_map.Common.{
  ℕ, ◌≤◌, ◌≡◌, refl, ap, Bool, true, false, Option, none, some, List, [], ◌∷◌, arith, if_split, ltb,
  inl, inr, All, In, count,
}
use signal_map.Store.{VerificationJob, Db}
use signal_map.Jobs.{
  newer, is_judge_of, latest_judge_job, is_job_candidate, is_expired_lease, release_job,
  release_jobs, release_expired_job_leases,
}

-- Nothing only if no job is a judge job of the response; otherwise one with no later id among them.
abbrev pub IsNewest : ℕ → List VerificationJob → Option VerificationJob → Type 0
IsNewest r xs none = All (λ (x : VerificationJob). is_judge_of r x ≡ false) xs
IsNewest r xs (some j) =
    In j xs
    × (is_judge_of r j ≡ true)
    × All (λ (x : VerificationJob). is_judge_of r x ≡ true → x.id ≤ j.id) xs

below-All :
    (r : ℕ) (a b : VerificationJob) (xs : List VerificationJob)
    → b.id ≤ a.id
    → All (λ (x : VerificationJob). is_judge_of r x ≡ true → x.id ≤ b.id) xs
    → All (λ (x : VerificationJob). is_judge_of r x ≡ true → x.id ≤ a.id) xs
below-All r a b [] h all = tt
below-All r a b (x ∷ xs) h (here, rest) =
    ((λ j. omega (arith, h, here j)), below-All r a b xs h rest)

none_above :
    (r : ℕ) (a : VerificationJob) (xs : List VerificationJob)
    → All (λ (x : VerificationJob). is_judge_of r x ≡ false) xs
    → All (λ (x : VerificationJob). is_judge_of r x ≡ true → x.id ≤ a.id) xs
none_above r a [] all = tt
none_above r a (x ∷ xs) (here, rest) =
    ((λ j. absurd (ground (arith, j, here))), none_above r a xs rest)

IsNewest-with :
    (r : ℕ) (x : VerificationJob) (xs : List VerificationJob) (o : Option VerificationJob)
    → is_judge_of r x ≡ true
    → IsNewest r xs o
    → IsNewest r (x ∷ xs) (some (newer x o))
IsNewest-with r x xs none h all = (inl refl, h, ((λ _. omega arith), none_above r x xs all))
IsNewest-with r x xs (some y) h (m, j, all) =
    if_split (λ (z : VerificationJob). IsNewest r (x ∷ xs) (some z)) (ltb x.id y.id)
      (λ less. (inr m, j, ((λ _. ground (arith, less)), all)))
      (λ more. (inl refl, h, ((λ _. omega arith), below-All r x y xs (ground (arith, more)) all)))

IsNewest-without :
    (r : ℕ) (x : VerificationJob) (xs : List VerificationJob) (o : Option VerificationJob)
    → is_judge_of r x ≡ false
    → IsNewest r xs o
    → IsNewest r (x ∷ xs) o
IsNewest-without r x xs none h all = (h, all)
IsNewest-without r x xs (some y) h (m, j, all) =
    (inr m, j, ((λ k. absurd (ground (arith, k, h))), all))

-- The job that the run page shows is the newest judge job of the response, and there is none only if
-- the response has no judge job.
pub latest_judge_job-IsNewest :
    (r : ℕ) (jobs : List VerificationJob) → IsNewest r jobs (latest_judge_job r jobs)
unfolding latest_judge_job
latest_judge_job-IsNewest r [] = tt
latest_judge_job-IsNewest r (x ∷ xs) =
    let rest = latest_judge_job-IsNewest r xs in
    if_split (IsNewest r (x ∷ xs)) (is_judge_of r x)
      (λ h. IsNewest-with r x xs (latest_judge_job r xs) h rest)
      (λ h. IsNewest-without r x xs (latest_judge_job r xs) h rest)

release_job_released :
    (now : ℕ) (x : VerificationJob) → is_expired_lease now (release_job now x) ≡ false
unfolding is_expired_lease release_job
release_job_released now x = ground arith

release_jobs_none :
    (now : ℕ) (xs : List VerificationJob) → count (is_expired_lease now) (release_jobs now xs) ≡ 0
unfolding release_jobs
release_jobs_none now [] = refl
release_jobs_none now (x ∷ xs) =
    ground (arith, release_job_released now x, release_jobs_none now xs)

released_job_is_candidate :
    (l : ℕ → Bool) (now : ℕ) (y : VerificationJob)
    → is_expired_lease now y ≡ true
    → y.scheduled_for ≤ now
    → l y.id ≡ false
    → is_job_candidate l now (release_job now y) ≡ true
unfolding is_job_candidate is_expired_lease release_job
released_job_is_candidate l now y ab due free = ground arith

release_jobs-In :
    (now : ℕ) (xs : List VerificationJob) (y : VerificationJob)
    → In y xs
    → In (release_job now y) (release_jobs now xs)
unfolding release_jobs
release_jobs-In now [] y m = absurd m
release_jobs-In now (x ∷ xs) y (inl e) = inl (ap (release_job now) e)
release_jobs-In now (x ∷ xs) y (inr m) = inr (release_jobs-In now xs y m)

-- A release leaves no expired lease, of any job; a due job that held one, and is not locked, is then a
-- candidate for the next claim.
pub release_expired_job_leases_frees :
    (l : ℕ → Bool) (db : Db) (now : ℕ)
    → let db' = (release_expired_job_leases db now).0 in
      (count (is_expired_lease now) db'.jobs ≡ 0)
      × ((y : VerificationJob)
          → In y db.jobs
          → is_expired_lease now y ≡ true
          → y.scheduled_for ≤ now
          → l y.id ≡ false
          → In (release_job now y) db'.jobs × (is_job_candidate l now (release_job now y) ≡ true))
unfolding release_expired_job_leases
release_expired_job_leases_frees l db now = (
  release_jobs_none now db.jobs,
  (λ y m old due free.
      (release_jobs-In now db.jobs y m, released_job_is_candidate l now y old due free)),
)
