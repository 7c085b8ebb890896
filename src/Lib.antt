-- ===== src/Lib.antt =====
-- A model of the scheduler of SignalMap and of its check of citations, with the theorems that make
-- them correct.
--
-- SignalMap sends prompts to AI providers on schedules. The ticker turns due windows of a schedule
-- into rows of the table run_queue; a worker claims a row under a lease, decides whether to run it,
-- calls the provider's adapter, and concludes the row by the outcome; a tick frees the leases of dead
-- workers and resolves runs that were interrupted; a run that succeeds queues a verification job, which
-- captures the pages that the answer cites and checks the quotes against them. The parts of the
-- scheduler share one database, which is here a record of lists (Store.Db) that each operation takes
-- and gives back; the tables of the quote check are another (Citations.Tables.Evidence). An exception
-- is a value of Result, and rolls back what was not committed.
--
-- The files, and the code that they model:
-- - Common: tests, lists and results that the parts share; Calendar: the proleptic calendar of
--   Python's datetime.date, as far as the scheduler uses it (leap years, weekdays, adding days), and
--   `_add_months` of app/services/scheduling.py. Years are not bounded.
-- - Recurrence: app/services/scheduling.py (compute_next_run_at, max_end_date, upcoming_occurrences).
-- - Store: the tables of app/models (schedule, run, prompt, provider, client, notification,
--   verification), the columns that the modelled code uses; `save_item` and its like are commits.
-- - Notifications: the outbox and two notifications of app/services/notifications.py.
-- - Queue: app/services/queue.py. Insert is `_insert_queue_item`, Due the loop over due windows,
--   Enqueue the ticker, Claim `claim_next`, Lease `release_expired_leases` and
--   `reconcile_interrupted_runs`, Retry the manual retry, cancellation and bulk retry.
-- - ProviderErrors: app/services/provider_errors.py.
-- - Execution: the daily quota and `execute_run` of app/services/run_execution.py, on a run that the
--   worker has created.
-- - Worker: `process_claimed_item` of app/worker.py, as `admit_item` (up to the committed run) and
--   `conclude_item` (from the adapter's outcome on).
-- - Lifecycle: the abstract machine of a row's status, which the operations of Queue and Worker
--   implement; Step is one operation, View the abstraction.
-- - Dns: the DNS messages of app/worker.py.
-- - Throttle: app/services/rate_limit.py. Passages: app/services/passages.py, with its BM25 scores as a
--   parameter.
-- - Jobs: app/services/verification_queue.py: the job queue, and the outcome of a job.
-- - Quote: app/services/quote_match.py. Normal is `normalize` with its offsets, Chunks
--   `split_into_chunks`, Match `find_chunk` and `match_quote`. A text is the list of its code points.
-- - Citations: app/services/citation_verification.py. Tables has its rows, Lookup the lookups of
--   app/services/verification_display.py, Check one citation, Pass the loop, Round all outcomes of one
--   citation; Final puts the pass into a job of Jobs.
-- The modules below each of these hold its proofs, by what they prove; Examples has the tests.
--
-- Time is a number of microseconds from a UTC midnight. A time zone (ZoneInfo) is a parameter, two
-- functions between instants and wall clock times; so are the rows that SKIP LOCKED passes over,
-- ILIKE, str.lower, the JSON dump of a number, and what a provider's adapter does with a run. The
-- unique index on occurrences is checked at inserts; an update of a due time is assumed to meet no
-- equal key. Foreign keys are assumed to point at rows. The database's clock is `server_now`. The quote
-- check takes html.unescape, NFKC, str.lower and the character classes (TextTools), difflib's matching
-- blocks, the hash of a text, rounding, and archive.org as parameters; what it relies on, that a block
-- lies in its text, is a hypothesis of the one theorem that needs it.
--
-- Bounds: compute_next_run_at searches 400 days as the code does, where a valid rule needs 63 at
-- most; upcoming_occurrences stops at 2000. The `while` loop over due windows takes fuel, with an
-- error of its own; the occurrences left and two rounds are enough for a schedule with a limit, and as
-- many rounds as microseconds up to now for any schedule where the wall clock does not run back. The loop
-- over a DNS name gets one round and, for each of its 17 passes, one for each octet of the message.
--
-- The chunks of a quote are found in whole texts, with no bound on their length.
--
-- Not modelled: the HTTP interface and its pages, the adapters, source capture and text extraction, the
-- lookup of snapshots in the archive, the claims and the judge's prompts, the BM25 scores, dashboards,
-- exports and imports, cost accounting, the heartbeat and its threads, the notification channels, and
-- what a run stores besides its row and raw response (citations, search queries, analysis results).
-- Nor are failures of the database's own statements, but for the unique index: in execute_run, an error
-- of storing the answer and a failing enqueue_capture, which is only logged; in
-- process_verification_job, an error of the bookkeeping itself, which leaves the job leased.
pub mod Common
pub mod Calendar
pub mod Recurrence
pub mod Store
pub mod Notifications
pub mod ProviderErrors
pub mod Execution
pub mod Queue
pub mod Worker
pub mod Lifecycle
pub mod Jobs
pub mod Quote
pub mod Citations
pub mod Dns
pub mod Throttle
pub mod Passages
