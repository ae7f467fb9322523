-- ===== src/Tests/MsghubRuns.antt =====
-- The hub of pkg/msghub on concrete messages.
use go_inbucket.Base.{
  ℕ, ◌≡◌, ◌≤◌, refl, arith, Bool, true, false, none, List, [], ◌∷◌, ◌++◌, map, drop, txt, bytes_eq,
  length, Bytes, ◌-◌,
}
use go_inbucket.Msghub.{Told, received, Hub, new_hub, dispatch_all, add_listener, delete, entries}
use go_inbucket.Msghub.Deletion.{copies, others, delete-others}
use go_inbucket.Msghub.History.{add_listener-dispatch_all}
use go_inbucket.Storage.Message.{Metadata}

abbrev message : Bytes → Metadata
message id = record {
  mailbox = txt "fred";
  id = id;
  from = none;
  to = [];
  date = 7;
  subject = [];
  size = 0;
  seen = false;
}

abbrev three : List Metadata
three = message (txt "1") ∷ message (txt "2") ∷ message (txt "3") ∷ []

-- No listener returns an error.
abbrev always : ℕ → Told → Bool
always l t = true

add_listener-dispatch_all_example :
    let h = dispatch_all always three (new_hub 2) in
    (add_listener 9 h).told ≡ h.told ++ map (λ m. (9, received m)) (drop (length three - 2) three)
add_listener-dispatch_all_example = add_listener-dispatch_all always 2 9 three (omega arith)

-- A deleted message is not played back.
played_back :
    (add_listener 9
      (delete always (txt "fred") (txt "2") (dispatch_all always three (new_hub 2)))).told
    ≡ (9, received (message (txt "3"))) ∷ []
unfolding add_listener delete dispatch_all new_hub txt bytes_eq
played_back = refl

abbrev held : Hub
held = dispatch_all always three (new_hub 2)

at_most_once : copies (txt "fred") (txt "2") held.history ≤ 1
unfolding dispatch_all new_hub txt bytes_eq
at_most_once = omega arith

delete-others_example :
    entries (delete always (txt "fred") (txt "2") held).history
    ≡ others (txt "fred") (txt "2") (entries held.history)
delete-others_example = delete-others (txt "fred") (txt "2") always held at_most_once
