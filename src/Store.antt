-- ===== src/Store.antt =====
-- The tables that the scheduler works on (app/models/schedule.py, run.py, notification.py, and the
-- columns of prompts, models and clients that it reads), as one record of lists. A timestamp is a
-- number of microseconds from a UTC midnight; a nullable column is an Option. An ORM object is a copy of its row,
-- and a commit of its changes is `save_item` or `save_schedule`.
pub mod Rows
use signal_map.Common.{
  ℕ, ◌*◌, ◌+◌, String, Bool, true, false, ◌&&◌, ◌||◌, Option, none, some, List, [], ◌∷◌, ◌++◌, ◌==◌,
  if◌then◌else◌, is_id, find_first, Exc,
}
use signal_map.Recurrence.{ScheduleOccurrenceInput}

-- timedelta(minutes=n)
abbrev pub minutes : ℕ → ℕ
minutes n = n * 60000000

-- run_queue.status
pub data Status : Type 0 where
  queued leased done error skipped deferred cancelled : Status

-- SKIP_REASONS
pub data SkipReason : Type 0 where
  grace_expired inactive_prompt inactive_model quota_exceeded dry_run worker_down
        queue_depth_exceeded :
      SkipReason

-- run_queue.source
pub data Source : Type 0 where
  schedule manual batch : Source

-- ErrorCategory (app/services/provider_errors.py)
pub data ErrorCategory : Type 0 where
  billing rate_limit auth transient invalid_request unknown : ErrorCategory

-- why an item or a run failed, as `last_error` and `error_message` record it
pub data Reason : Type 0 where
  provider_failure : ErrorCategory → String → Reason
  provider_message : String → Reason
  interrupted : Reason
  extra_missed : ℕ → Reason
  job_failed : Exc → Reason
  gave_up : ℕ → Reason

pub record RunQueueItem : Type 0 where
  pub id : ℕ
  pub schedule_id : Option ℕ
  pub source : Source
  pub batch_id : Option ℕ
  pub client_id : ℕ
  pub prompt_id : ℕ
  pub model_id : ℕ
  pub market_id : ℕ
  pub persona_id : ℕ
  pub scheduled_for : ℕ
  pub priority : ℕ
  pub status : Status
  pub skip_reason : Option SkipReason
  pub attempts : ℕ
  pub transport_attempts : ℕ
  pub last_error : Option Reason
  pub leased_by : Option String
  pub leased_until : Option ℕ
  pub run_id : Option ℕ
  pub retry_of_id : Option ℕ
  pub queued_at : ℕ
  pub started_at : Option ℕ
  pub finished_at : Option ℕ

-- runs.status, where `failed` is 'error'
pub data RunStatus : Type 0 where
  pending success failed : RunStatus

pub record Run : Type 0 where
  pub id : ℕ
  pub prompt_id : ℕ
  pub model_id : ℕ
  pub market_id : ℕ
  pub persona_id : ℕ
  pub status : RunStatus
  pub started_at : ℕ
  pub finished_at : Option ℕ
  pub error_message : Option Reason

pub data TargetType : Type 0 where
  prompt_target prompt_set_target other_target : TargetType

-- run_schedules: the recurrence rule, and what it runs
pub record RunSchedule : Type 0 where
  pub rule : ScheduleOccurrenceInput
  pub open rule use *
  pub id : ℕ
  pub client_id : ℕ
  pub target_type : TargetType
  pub target_id : ℕ
  pub model_ids : List ℕ
  pub market_id : Option ℕ
  pub persona_ids : List ℕ
  pub priority : ℕ
  pub is_active : Bool
  pub is_completed : Bool  -- inactive_reason is 'completed'
  pub next_run_at : Option ℕ
  pub last_enqueued_at : Option ℕ

pub record Prompt : Type 0 where
  pub id : ℕ
  pub root_prompt_id : Option ℕ
  pub prompt_set_id : ℕ
  pub client_id : ℕ  -- prompt_set.client_id
  pub market_id : ℕ
  pub is_current_version : Bool
  pub is_active : Bool
  pub text : String

pub record AiModel : Type 0 where
  pub id : ℕ
  pub provider_code : String
  pub is_active : Bool

pub record Client : Type 0 where
  pub id : ℕ
  pub name : String
  pub priority : ℕ
  pub daily_run_limit : Option ℕ

pub data QuotaReason : Type 0 where
  daily_run_limit queue_depth : QuotaReason

-- notification_outbox.event_type with the payload fields that the code reads again
pub data Event : Type 0 where
  window_skipped : ℕ → List ℕ → List String → Event
  run_failed : ℕ → ℕ → Event
  quota_alert : ℕ → QuotaReason → Event
  billing_exhausted : String → Event

pub record Notification : Type 0 where
  pub event : Event
  pub created_at : ℕ

-- raw_responses: the answer of a run, and whose provider and client it is of
pub record RawResponse : Type 0 where
  pub id : ℕ
  pub run_id : ℕ

-- verification_jobs (app/models/verification.py)
pub data JobKind : Type 0 where
  capture judge other_kind : JobKind

pub data JobStatus : Type 0 where
  job_queued job_leased job_deferred job_done job_error : JobStatus

pub record VerificationJob : Type 0 where
  pub id : ℕ
  pub raw_response_id : ℕ
  pub kind : JobKind
  pub status : JobStatus
  pub priority : ℕ
  pub attempts : ℕ
  pub scheduled_for : ℕ
  pub leased_by : Option String
  pub lease_expires_at : Option ℕ
  pub requested_by_user_id : Option ℕ
  pub last_error : Option Reason  -- the column `error`, which the code cuts to 2000 characters
  pub created_at : ℕ
  pub finished_at : Option ℕ

-- `server_now` is the database's clock, and `next_…` its sequences (and the source of uuid4).
pub record Db : Type 0 where
  pub queue : List RunQueueItem
  pub runs : List Run
  pub schedules : List RunSchedule
  pub prompts : List Prompt
  pub models : List AiModel
  pub clients : List Client
  pub outbox : List Notification
  pub responses : List RawResponse
  pub jobs : List VerificationJob
  pub next_response_id : ℕ
  pub next_job_id : ℕ
  pub next_item_id : ℕ
  pub next_run_id : ℕ
  pub next_uuid : ℕ
  pub server_now : ℕ

-- db.get(Prompt, id), db.get(AiModel, id), db.get(Client, id)
unfoldable pub get_prompt : Db → ℕ → Option Prompt
get_prompt db i = find_first (λ (p : Prompt). p.id == i) db.prompts

unfoldable pub get_model : Db → ℕ → Option AiModel
get_model db i = find_first (λ (m : AiModel). m.id == i) db.models

unfoldable pub get_client : Db → ℕ → Option Client
get_client db i = find_first (λ (c : Client). c.id == i) db.clients

-- Every row with the item's id becomes the item.
unfoldable pub save_row : RunQueueItem → List RunQueueItem → List RunQueueItem
save_row item [] = []
save_row item (x ∷ xs) = (if x.id == item.id then item else x) ∷ save_row item xs

unfoldable pub save_item : Db → RunQueueItem → Db
unfolding save_row
save_item db item = record db { queue = save_row item db.queue }

unfoldable pub save_schedule_row : RunSchedule → List RunSchedule → List RunSchedule
save_schedule_row s [] = []
save_schedule_row s (x ∷ xs) = (if x.id == s.id then s else x) ∷ save_schedule_row s xs

unfoldable pub save_schedule : Db → RunSchedule → Db
unfolding save_schedule_row
save_schedule db s = record db { schedules = save_schedule_row s db.schedules }

-- a commit of a run's changes
unfoldable pub save_run : Run → List Run → List Run
save_run run [] = []
save_run run (x ∷ xs) = (if x.id == run.id then run else x) ∷ save_run run xs

-- status IN ('queued', 'deferred')
unfoldable pub is_waiting : Status → Bool
is_waiting queued = true
is_waiting deferred = true
is_waiting _ = false

unfoldable pub is_leased : Status → Bool
is_leased leased = true
is_leased _ = false

unfoldable pub is_pending : RunStatus → Bool
is_pending pending = true
is_pending _ = false

-- the five columns of idx_run_queue_unique_occurrence; NULLs are distinct in a unique index
unfoldable pub same_occurrence : RunQueueItem → RunQueueItem → Bool
same_occurrence a b =
    elim a.schedule_id [ none ↦ false | some i ↦ is_id b.schedule_id i ]
    && ((a.scheduled_for == b.scheduled_for)
        && ((a.prompt_id == b.prompt_id)
            && ((a.model_id == b.model_id) && (a.persona_id == b.persona_id))))

-- notify: one row of notification_outbox (its channels are not modelled)
unfoldable pub notify : Db → Event → ℕ → Db
notify db e at = record db { outbox = db.outbox ++ (record { event = e; created_at = at } ∷ []) }
