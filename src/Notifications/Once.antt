-- ===== src/Notifications/Once.antt =====
-- The notifications of one occurrence are sent once in their period.
use mathlib.Core.Path.{subst}
use signal_map.Common.{
  any-append_left, sym, ℕ, ◌+◌, ◌-◌, ◌≤◌, ◌≡◌, refl, String, Bool, true, false, ◌&&◌, List, [], ◌∷◌,
  ◌++◌, arith, any, leb, inl, inr, Bool-cases,
}
use text.Mathlib.TextEquality.{eq_iff}
use signal_map.Store.{
  Db, Event, QuotaReason, quota_alert, billing_exhausted, Notification, notify, minutes,
}
use signal_map.Notifications.{
  already_notified, is_quota_alert, is_billing_alert, day_start, notify_quota_exceeded,
  notify_provider_billing_exhausted,
}

any_last :
    (p : Notification → Bool) (xs : List Notification) (n : Notification)
    → p n ≡ true
    → any p (xs ++ (n ∷ [])) ≡ true
any_last p [] n h = ground (arith, h)
any_last p (x ∷ xs) n h = ground (arith, any_last p xs n h)

already_notified-notify :
    (db : Db) (same : Event → Bool) (e : Event) (at since : ℕ)
    → same e ≡ true
    → since ≤ at
    → already_notified (notify db e at) same since ≡ true
unfolding already_notified notify
already_notified-notify db same e at since h late =
    any_last (λ (n : Notification). same n.event && leb since n.created_at) db.outbox
      (record { event = e; created_at = at }) (ground (arith, h, late))

-- What the outbox already has, it has with more rows behind it.
already_notified-append :
    (db db' : Db) (same : Event → Bool) (since : ℕ) (more : List Notification)
    → db'.outbox ≡ db.outbox ++ more
    → already_notified db same since ≡ true
    → already_notified db' same since ≡ true
unfolding already_notified
already_notified-append db db' same since more e h = rw e (
    any-append_left (λ (n : Notification). same n.event && leb since n.created_at) db.outbox more h)

-- Once an alert has been considered, it is not sent again.
quota_notified :
    (db : Db) (client_id : ℕ) (r : QuotaReason) (now : ℕ)
    → day_start now ≤ db.server_now
    → already_notified
        (notify_quota_exceeded db client_id r now)
        (is_quota_alert client_id)
        (day_start now)
      ≡ true
unfolding notify_quota_exceeded
quota_notified db client_id r now here =
    elim (Bool-cases (already_notified db (is_quota_alert client_id) (day_start now))) [
      | inl old ↦ ground (arith, old)
      | inr new ↦ ground (
        arith,
        new,
        already_notified-notify db (is_quota_alert client_id) (quota_alert client_id r)
            db.server_now (day_start now) (ground arith) here,
      )
    ]

quota_alert_skipped :
    (db : Db) (client_id : ℕ) (r : QuotaReason) (now : ℕ)
    → already_notified db (is_quota_alert client_id) (day_start now) ≡ true
    → notify_quota_exceeded db client_id r now ≡ db
unfolding notify_quota_exceeded
quota_alert_skipped db client_id r now h = rw h refl

-- Where the database's clock is not before the UTC day of `now`, a second quota alert for the client on
-- the same UTC day, for either reason, changes nothing, in any later database whose outbox only has
-- more rows.
pub notify_quota_exceeded_once :
    (db db' : Db) (client_id : ℕ) (r r' : QuotaReason) (now now' : ℕ) (more : List Notification)
    → day_start now ≤ db.server_now
    → day_start now ≡ day_start now'
    → db'.outbox ≡ (notify_quota_exceeded db client_id r now).outbox ++ more
    → notify_quota_exceeded db' client_id r' now' ≡ db'
notify_quota_exceeded_once db db' client_id r r' now now' more here day later =
    quota_alert_skipped db' client_id r' now' (
      subst (λ d. already_notified db' (is_quota_alert client_id) d ≡ true) day
        (already_notified-append (notify_quota_exceeded db client_id r now) db'
          (is_quota_alert client_id) (day_start now) more later
          (quota_notified db client_id r now here)))

billing_notified :
    (db : Db) (code : String) (now now' : ℕ)
    → now ≤ now'
    → now' ≤ now + minutes 360
    → already_notified
        (notify db (billing_exhausted code) now)
        (is_billing_alert code)
        (now' - minutes 360)
      ≡ true
billing_notified db code now now' first soon =
    already_notified-notify db (is_billing_alert code) (billing_exhausted code) now
      (now' - minutes 360) ((eq_iff code code).1 refl) (omega (arith, soon))

billing_alert_sent :
    (db : Db) (code : String) (now : ℕ)
    → already_notified db (is_billing_alert code) (now - minutes 360) ≡ false
    → notify_provider_billing_exhausted db code now ≡ notify db (billing_exhausted code) now
unfolding notify_provider_billing_exhausted
billing_alert_sent db code now h = rw h refl

billing_alert_skipped :
    (db : Db) (code : String) (now : ℕ)
    → already_notified db (is_billing_alert code) (now - minutes 360) ≡ true
    → notify_provider_billing_exhausted db code now ≡ db
unfolding notify_provider_billing_exhausted
billing_alert_skipped db code now h = rw h refl

-- Once a billing notification of a provider has been sent at `now`, another within the six hours from
-- then on changes nothing, in any later database whose outbox only has more rows.
pub notify_provider_billing_exhausted_once :
    (db db' : Db) (code : String) (now now' : ℕ) (more : List Notification)
    → already_notified db (is_billing_alert code) (now - minutes 360) ≡ false
    → now ≤ now'
    → now' ≤ now + minutes 360
    → db'.outbox ≡ (notify_provider_billing_exhausted db code now).outbox ++ more
    → notify_provider_billing_exhausted db' code now' ≡ db'
notify_provider_billing_exhausted_once db db' code now now' more new first soon later =
    billing_alert_skipped db' code now' (
      already_notified-append (notify_provider_billing_exhausted db code now) db'
        (is_billing_alert code) (now' - minutes 360) more later
        (subst (λ (d : Db). already_notified d (is_billing_alert code) (now' - minutes 360) ≡ true)
          (sym (billing_alert_sent db code now new))
          (billing_notified db code now now' first soon)))
