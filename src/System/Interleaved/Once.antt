-- ===== src/System/Interleaved/Once.antt =====
-- Interleaved clients and workers: one transfer of a key commits, and one refund of a transaction.
use banking_plateform.Base.{◌≡◌, ◌≢◌, subst, Str}
use banking_plateform.Ledger.Transaction.{Transaction}
use banking_plateform.Shared.Errors.{ok}
use banking_plateform.Storage.{World}
use banking_plateform.System.History.Refund.{Unposted, later-Posted, post_compensation-Marks}
use banking_plateform.System.History.Taken.{Free, later-Taken, post_transfer-Marks}
use banking_plateform.System.Interleaved.{Interleaved, Interleaved-IsLater}
use banking_plateform.Transfer.Coordinator.{TransferCommit, post_transfer, post_compensation}

-- After a transfer has been committed, and whatever interleaved writes of other clients and workers
-- follow, the commit of a transfer under the same idempotency key fails.
pub one_commit_per_key :
    (w v : World) (c later : TransferCommit)
    → (post_transfer c w).0 ≡ ok tt
    → Interleaved (post_transfer c w).1.db v.db
    → later.saga.idempotency_key ≡ c.saga.idempotency_key
    → (post_transfer later v).0 ≢ ok tt
one_commit_per_key w v c later e after same e' =
    let key = c.saga.idempotency_key in
    let (_, taken) = (post_transfer-Marks c).at w e in
    let still = later-Taken key _ v.db (Interleaved-IsLater after) taken in
    let (free, _) = (post_transfer-Marks later).at v e' in
    let free' : Free key v.db = subst (λ k. Free k v.db) same free in cc

-- After a compensation has been committed, and whatever interleaved writes of other clients and
-- workers follow, a compensation whose journal has the same identifier fails.
pub one_refund_per_journal :
    (w v : World) (tx later : Transaction) (saga_id other : Str)
    → (post_compensation tx saga_id w).0 ≡ ok tt
    → Interleaved (post_compensation tx saga_id w).1.db v.db
    → later.id ≡ tx.id
    → (post_compensation later other v).0 ≢ ok tt
one_refund_per_journal w v tx later saga_id other e after same e' =
    let (_, taken) = (post_compensation-Marks tx saga_id).at w e in
    let still = later-Posted tx.id _ v.db (Interleaved-IsLater after) taken in
    let (free, _) = (post_compensation-Marks later other).at v e' in
    let free' : Unposted tx.id v.db = subst (λ k. Unposted k v.db) same free in cc
