-- ===== src/Notifications.antt =====
-- app/services/notifications.py: the notifications that the worker sends at most once in a period.
pub mod Once
mod Examples
use signal_map.Common.{ℕ, ◌-◌, ◌%◌, String, Bool, false, ◌&&◌, any, if◌then◌else◌, ◌==◌, leb}
use text.Mathlib.Text.{◌==◌ as str_eq}
use signal_map.Store.{
  Event, quota_alert, billing_exhausted, window_skipped, run_failed, QuotaReason, Notification, Db,
  notify, minutes,
}

-- `_already_notified`: a row of the same event type and payload field, since a time
unfoldable pub already_notified : Db → (Event → Bool) → ℕ → Bool
already_notified db same since =
    any (λ (n : Notification). same n.event && leb since n.created_at) db.outbox

abbrev pub is_quota_alert : ℕ → Event → Bool
is_quota_alert client_id (quota_alert i r) = i == client_id
is_quota_alert client_id (window_skipped c ss ns) = false
is_quota_alert client_id (run_failed i r) = false
is_quota_alert client_id (billing_exhausted p) = false

abbrev pub is_billing_alert : String → Event → Bool
is_billing_alert code (billing_exhausted p) = str_eq p code
is_billing_alert code (window_skipped c ss ns) = false
is_billing_alert code (run_failed i r) = false
is_billing_alert code (quota_alert i r) = false

-- midnight of the UTC day of an instant
abbrev pub day_start : ℕ → ℕ
day_start now = now - now % 86400000000

-- once for each client and UTC day; the row gets the database's own time
unfoldable pub notify_quota_exceeded : Db → ℕ → QuotaReason → ℕ → Db
unfolding already_notified notify
notify_quota_exceeded db client_id reason now =
    if already_notified db (is_quota_alert client_id) (day_start now)
    then db
    else notify db (quota_alert client_id reason) db.server_now

-- once for each provider and six hours
unfoldable pub notify_provider_billing_exhausted : Db → String → ℕ → Db
unfolding already_notified notify
notify_provider_billing_exhausted db code now =
    if already_notified db (is_billing_alert code) (now - minutes 360)
    then db
    else notify db (billing_exhausted code) now
