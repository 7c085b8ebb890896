-- ===== src/Lifecycle/Examples.antt =====
-- Instances for the machine of statuses: the release of an expired lease, and an item that has failed.
use signal_map.Common.{◌≡◌, refl, sym, ◌∙◌, some, [], ◌∷◌, inl, inr}
use signal_map.Store.{RunQueueItem, Db, error}
use signal_map.Store.Rows.{IsKeyed}
use signal_map.Queue.Lease.{release_expired_leases, is_over}
use signal_map.Queue.Samples.{tick, empty_db, abandoned_item, failed_item_1}
use signal_map.Lifecycle.{releasing, releases}
use signal_map.Lifecycle.View.{view, Simulates}
use signal_map.Lifecycle.Worker.{Step-Simulates}
use signal_map.Lifecycle.Over.{none_yet, then_one, Steps-over}

alone : (item : RunQueueItem) → IsKeyed (item ∷ [])
alone item x y (inl e) (inl f) k = e ∙ sym f
alone item x y (inl e) (inr m) k = absurd m
alone item x y (inr m) n k = absurd m

abbrev leased_db : Db
leased_db = record empty_db { queue = abandoned_item ∷ [] }

abbrev freed_db : Db
freed_db = (release_expired_leases leased_db tick).0

Step-Simulates_example : Simulates releasing leased_db freed_db
Step-Simulates_example =
    Step-Simulates leased_db freed_db (alone abandoned_item) (releases tick refl)

abbrev failed_db : Db
failed_db = record empty_db { queue = failed_item_1 ∷ [] }

abbrev later_db : Db
later_db = (release_expired_leases failed_db tick).0

Steps-over_example : view later_db.queue 3 ≡ some error
Steps-over_example =
    Steps-over failed_db later_db 3 error refl (unfold is_over in refl)
      (then_one failed_db (none_yet refl) (alone failed_item_1) (releases tick refl))
