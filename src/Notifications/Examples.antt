-- ===== src/Notifications/Examples.antt =====
-- Instances for app/services/notifications.py: two alerts a minute apart, another between them.
use signal_map.Common.{◌+◌, ◌-◌, ◌≡◌, refl, arith, false, [], ◌∷◌, ◌++◌}
use signal_map.Store.{Db, Notification, run_failed, notify, daily_run_limit, queue_depth, minutes}
use signal_map.Notifications.{
  already_notified, is_billing_alert, notify_quota_exceeded, notify_provider_billing_exhausted,
}
use signal_map.Notifications.Once.{
  notify_quota_exceeded_once, notify_provider_billing_exhausted_once,
}
use signal_map.Queue.Samples.{empty_db, tick}

abbrev other_notice : Notification
other_notice = record { event = run_failed 3 9; created_at = tick }

abbrev after_alert : Db
after_alert = notify (notify_quota_exceeded empty_db 7 daily_run_limit tick) (run_failed 3 9) tick

other_follows :
    after_alert.outbox
    ≡ (notify_quota_exceeded empty_db 7 daily_run_limit tick).outbox ++ (other_notice ∷ [])
unfolding notify
other_follows = refl

notify_quota_exceeded_once_example :
    notify_quota_exceeded after_alert 7 queue_depth (tick + minutes 1) ≡ after_alert
notify_quota_exceeded_once_example =
    notify_quota_exceeded_once empty_db after_alert 7 daily_run_limit queue_depth tick
      (tick + minutes 1) (other_notice ∷ []) (omega arith) refl other_follows

abbrev after_notice : Db
after_notice = notify (notify_provider_billing_exhausted empty_db "p" tick) (run_failed 3 9) tick

notice_follows :
    after_notice.outbox
    ≡ (notify_provider_billing_exhausted empty_db "p" tick).outbox ++ (other_notice ∷ [])
unfolding notify
notice_follows = refl

none_sent : already_notified empty_db (is_billing_alert "p") (tick - minutes 360) ≡ false
unfolding already_notified
none_sent = refl

notify_provider_billing_exhausted_once_example :
    notify_provider_billing_exhausted after_notice "p" (tick + minutes 1) ≡ after_notice
notify_provider_billing_exhausted_once_example =
    notify_provider_billing_exhausted_once empty_db after_notice "p" tick (tick + minutes 1)
      (other_notice ∷ []) none_sent (omega arith) (omega arith) notice_follows
