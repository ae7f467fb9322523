-- ===== src/Tests/RetentionRuns.antt =====
-- Scans of pkg/storage/retention.go over a store with an old and a new message.
use go_inbucket.Base.{
  ℕ, ◌-◌, ◌≡◌, refl, true, false, none, some, List, [], ◌∷◌, arith, txt, bytes_eq,
}
use go_inbucket.GoText.Decimal.{itoa}
use go_inbucket.Storage.Dict.{lookup}
use go_inbucket.Storage.Mem.{Store, message_of}
use go_inbucket.Storage.Mem.Valid.{Call, run, run-IsStore, empty_store, messages_of}
use go_inbucket.Storage.Message.{Draft}
use go_inbucket.Storage.Retention.{do_scan}
use go_inbucket.Storage.Retention.Home.{run-AllHome}
use go_inbucket.Storage.Retention.Scan.{unexpired}
use go_inbucket.Storage.Retention.Visits.{do_scan-lookup, do_scan-keeps}
use go_inbucket.Tests.StorageRuns.{draft, body, fred}

abbrev aged : ℕ → Draft
aged date = record draft { date = date }

abbrev calls : List Call
calls = Call.add (aged 3) ∷ Call.add (aged 9) ∷ []

abbrev store : Store
store = run calls (empty_store 0)

do_scan-lookup_example :
    lookup (txt "1") (messages_of fred (do_scan (λ n. false) 5 10 store).1)
    ≡ unexpired (10 - 5) (lookup (txt "1") (messages_of fred store))
do_scan-lookup_example =
    do_scan-lookup (λ n. false) 5 10 store fred (txt "1") (run-IsStore calls 0)
      (run-AllHome calls 0) (λ n. refl)

do_scan-keeps_example :
    lookup (txt "2") (messages_of fred (do_scan (λ n. true) 5 10 store).1)
    ≡ some (message_of (aged 9) body 2)
unfolding run txt bytes_eq itoa
do_scan-keeps_example =
    do_scan-keeps (λ n. true) 5 10 store fred (txt "2") (message_of (aged 9) body 2)
      (run-IsStore calls 0) (run-AllHome calls 0) refl (omega arith)

scan_runs :
    ((do_scan (λ n. false) 5 10 store).0
      ≡ record { deletes = 1; retained = 1; store_size = 10; visits = 1 })
    × (lookup (txt "1") (messages_of fred (do_scan (λ n. false) 5 10 store).1) ≡ none)
unfolding do_scan run txt bytes_eq itoa
scan_runs = (refl, refl)
