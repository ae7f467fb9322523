-- ===== src/Storage/Retention.antt =====
-- pkg/storage/retention.go: one scan for messages that are older than the retention period, over the
-- memory store. Points in time are numbers of nanoseconds, so a period that is longer than the time
-- since 0 gives the cutoff 0.
pub mod Home
pub mod Scan
pub mod Visits
use go_inbucket.Base.{ℕ, ◌+◌, ◌-◌, Bool, not, List, [], ◌∷◌, ltb, if◌then◌else◌}
use go_inbucket.Storage.Mem.{Store, remove_message, visit_mailboxes}
use go_inbucket.Storage.Message.{Message, size}

-- What the scan counts: expRetentionDeletesTotal, `retained`, `storeSize`, and the mailboxes done.
pub record Totals : Type 0 where
  pub deletes : ℕ
  pub retained : ℕ
  pub store_size : ℕ
  pub visits : ℕ

-- One message. The memory store's `RemoveMessage` returns no error.
unfoldable pub scan_message : ℕ → Message → Totals × Store → Totals × Store
unfolding remove_message
scan_message cutoff m (t, s) =
    if ltb m.date cutoff
    then (record t { deletes = t.deletes + 1 }, (remove_message m.mailbox m.id s).0)
    else (record t { retained = t.retained + 1; store_size = t.store_size + size m }, s)

unfoldable pub scan_messages : ℕ → List Message → Totals × Store → Totals × Store
unfolding scan_message
scan_messages cutoff [] ts = ts
scan_messages cutoff (m ∷ ms) ts = scan_messages cutoff ms (scan_message cutoff m ts)

-- The callback of the visit. `done n` says whether the context is done after the n-th mailbox.
unfoldable pub scan_mailbox :
    (ℕ → Bool) → ℕ → List Message → Totals × Store → (Totals × Store) × Bool
unfolding scan_messages
scan_mailbox done cutoff ms ts =
    let (t, s) = scan_messages cutoff ms ts in
    ((record t { visits = t.visits + 1 }, s), not (done t.visits))

abbrev pub no_totals : Totals
no_totals = record { deletes = 0; retained = 0; store_size = 0; visits = 0 }

-- `DoScan` at the time `now`.
unfoldable pub do_scan : (ℕ → Bool) → ℕ → ℕ → Store → Totals × Store
unfolding scan_mailbox visit_mailboxes
do_scan done period now s = visit_mailboxes (scan_mailbox done (now - period)) (no_totals, s)
