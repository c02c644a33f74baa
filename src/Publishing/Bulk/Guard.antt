-- ===== src/Publishing/Bulk/Guard.antt =====
-- Publishing inside of a bulk context.
use openedx_core.Common.{ℕ, String, ◌≡◌, refl, Bool, Option, ==_refl}
use openedx_core.Publishing.Models.{Store}
use openedx_core.Publishing.Monad.{err, validation_error}
use openedx_core.Publishing.Logs.{World}
use openedx_core.Publishing.Drafts.{get_active_draft_change_log}
use openedx_core.Publishing.Publish.{QuerySet, publish_from_drafts, publish_all_drafts}
use openedx_core.Publishing.Bulk.{enter, bulk_draft_changes_for}

-- Whatever is to be published, `publish_from_drafts` and `publish_all_drafts` raise a
-- ValidationError in the body of `bulk_draft_changes_for` for the same package, so that nothing
-- is written.
pub publish_in_bulk :
    (w : World) (lp : ℕ) (by at : Option ℕ) (q : QuerySet) (message : String)
    (published_at published_by : Option ℕ) (dependencies : Bool) (s : Store)
    → (bulk_draft_changes_for w lp by at
          (publish_from_drafts w lp q message published_at published_by dependencies)
          s
        ≡ err validation_error)
      × (bulk_draft_changes_for w lp by at
            (publish_all_drafts w lp message published_at published_by)
            s
          ≡ err validation_error)
unfolding bulk_draft_changes_for enter publish_from_drafts publish_all_drafts
    get_active_draft_change_log
publish_in_bulk w lp by at q message published_at published_by dependencies s =
    rw (==_refl lp) (refl, refl)
