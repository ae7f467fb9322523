-- ===== src/Manager/Session.antt =====
-- A session of pkg/server/smtp that delivers through the message manager.
use go_inbucket.Base.{◌≡◌, refl, ◌∙◌, false, some, List, [], ◌∷◌, Bytes, inl, inr, Option-cases}
use go_inbucket.Manager.{settle, Inbound, Manager, World, deliver_all, deliver, draft_for}
use go_inbucket.Manager.Deliver.{sender_of-some}
use go_inbucket.Policy.{Origin, Recipient}
use go_inbucket.Smtp.{Server}
use go_inbucket.Smtp.Invariant.Deliveries.{start_session-deliveries}
use go_inbucket.Smtp.Loop.{start_session}
use go_inbucket.Smtp.Transaction.{Read}

module _ {S : Type 0} (m : Manager S) where
  -- The server of a session, with the manager's `Deliver`.
  abbrev pub with_manager : Server (World S) → Server (World S)
  with_manager srv = record srv { deliver = deliver m }

  deliver_all-panicked :
      (o : Origin) (inbound : Inbound) (recvd source : Bytes) (names : List Bytes) (w : World S)
      → (deliver_all m (some o) inbound recvd source names w).0.panicked ≡ w.panicked
  unfolding deliver_all
  deliver_all-panicked o inbound recvd source [] w = refl
  deliver_all-panicked o inbound recvd source (name ∷ names) w =
      elim (Option-cases (m.store.add (draft_for m o inbound recvd source name) w.store).1) [
        | inl failed ↦ rw (failed, deliver_all) refl
        | inr (id, added) ↦
            rw (added, deliver_all) (deliver_all-panicked o inbound recvd source names _)
      ]

  deliver-panicked :
      (o : Origin) (recipients : List Recipient) (recvd source : Bytes) (w : World S)
      → (deliver m (some o) recipients recvd source w).0.panicked ≡ w.panicked
  unfolding deliver
  deliver-panicked o recipients recvd source w = elim (Option-cases (m.decode source)) [
    | inl bad ↦ rw (bad, deliver) refl
    | inr (h, decoded) ↦
        let (sender, found) = sender_of-some h o in
        rw (decoded, found, deliver)
          (deliver_all-panicked o (settle m h sender recipients source) recvd source
            (settle m h sender recipients source).mailboxes w)
  ]

  -- Whatever a client sends, and whatever the store and the extensions answer, no delivery of the
  -- session reads a nil sender.
  pub start_session-panicked :
      (srv : Server (World S)) (host : Bytes) (reads : List Read) (w : World S)
      → w.panicked ≡ false
      → (start_session (with_manager srv) host reads w).1.panicked ≡ false
  start_session-panicked srv host reads w calm =
      start_session-deliveries (with_manager srv) (λ x. x.panicked ≡ false)
        (λ o rs recvd source x some_one within admitted calm'.
          deliver-panicked o rs recvd source x ∙ calm')
        host reads w calm
