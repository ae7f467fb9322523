-- ===== src/Tests/SocketRuns.antt =====
-- A client on a websocket, on concrete runs: pkg/rest/socketv1_controller.go and socketv2_controller.go.
use mathlib.Core.Path.{subst}
use go_inbucket.Base.{
  ℕ, zero, suc, ◌≡◌, refl, true, false, Option, none, some, List, [], ◌∷◌, arith, txt, Bytes,
  bytes_eq,
}
use go_inbucket.Msghub.{received}
use go_inbucket.Rest.{metadata_to_header}
use go_inbucket.Rest.Socket.{
  v1, v2, World, Listener, Entry, metadata_entry, event_entry, dispatch, connect, hub_turn, Step,
  hub_step, Steps, here, then_step, entry_for, add, remove, close, remove_listener, close_channel,
}
use go_inbucket.Rest.Socket.Invariant.{connect-IsSound}
use go_inbucket.Rest.Socket.Leak.{connect-lost}
use go_inbucket.Rest.Socket.Operations.{after}
use go_inbucket.Rest.Socket.Registration.{connect-IsKept}
use go_inbucket.Rest.Socket.Sound.{IsSound}
use go_inbucket.Rest.Socket.Stuck.{IsAbandoned, hub_turn-abandoned}
use go_inbucket.Storage.Message.{Metadata}

abbrev stored : Bytes → Metadata
stored mailbox = record {
  mailbox = mailbox;
  id = txt "1";
  from = none;
  to = [];
  date = 1500000;
  subject = txt "hi";
  size = 9;
  seen = true;
}

-- Fred is watched, and two messages wait for the hub, of which one is his.
abbrev watch_fred : World
watch_fred = connect v2 (txt "fred") (none ∷ none ∷ []) []

abbrev listener : List Entry → Listener
listener q = record { version = v2; mailbox = txt "fred"; queue = q; closed = false }

abbrev joined : World
joined = record watch_fred { ops = []; registered = true }

abbrev posted : World
posted = record joined { ops = dispatch (stored (txt "fred")) ∷ [] }

abbrev told_fred : World
told_fred = record joined {
  history = none ∷ some (stored (txt "fred")) ∷ [];
  told = received (stored (txt "fred")) ∷ [];
  listener = listener (
      event_entry (record {
        variant = txt "message-stored";
        identifier = none;
        header = some (metadata_to_header (stored (txt "fred")));
      })
      ∷ []);
}

-- Some turns of the hub.
abbrev turns : ℕ → World → Option World
turns zero w = some w
turns (suc n) w = elim (hub_turn w) [ none ↦ none | some w' ↦ turns n w' ]

turns-Steps : (n : ℕ) (u w w' : World) → Steps u w → turns n w ≡ some w' → Steps u w'
turns-Steps zero u w w' s e = let same : w ≡ w' = cc in subst (Steps u) (same) s
turns-Steps (suc n) u w w' s e = go (hub_turn w) refl e (λ v t q. turns-Steps n u v w' t q)
  where
    go :
        (o : Option World)
        → hub_turn w ≡ o
        → elim o [ none ↦ none | some v ↦ turns n v ] ≡ some w'
        → ((v : World) → Steps u v → turns n v ≡ some w' → Steps u w')
        → Steps u w'
    go none p q next = cc
    go (some v) p q next = next v (then_step s (hub_step v p)) q

to_fred : Steps watch_fred told_fred
unfolding connect hub_turn entry_for txt bytes_eq
to_fred =
    then_step
      (then_step (turns-Steps 2 watch_fred watch_fred joined here refl)
        (Step.post_dispatch (stored (txt "fred")) (omega arith)))
      (hub_step told_fred refl)

connect-IsSound_example :
    IsSound (v2, txt "fred") told_fred.listener (received (stored (txt "fred")) ∷ []) [] true true
unfolding connect
connect-IsSound_example = connect-IsSound v2 (txt "fred") (none ∷ none ∷ []) [] told_fred to_fred

connect-IsKept_example : after true [] ≡ true
unfolding connect
connect-IsKept_example = connect-IsKept v2 (txt "fred") (none ∷ none ∷ []) [] told_fred to_fred

-- A client for all mailboxes that is played three messages.
abbrev three : List (Option Metadata)
three = some (stored (txt "a")) ∷ some (stored (txt "b")) ∷ some (stored (txt "c")) ∷ []

abbrev played : World
played = record (connect v1 [] three []) {
  ops = [];
  registered = true;
  told =
      received (stored (txt "a")) ∷ received (stored (txt "b")) ∷ received (stored (txt "c")) ∷ [];
  listener = record {
    version = v1;
    mailbox = [];
    queue =
        metadata_entry (stored (txt "a"))
        ∷ metadata_entry (stored (txt "b"))
        ∷ metadata_entry (stored (txt "c"))
        ∷ [];
    closed = false;
  };
}

to_played : Steps (connect v1 [] three []) played
unfolding connect hub_turn entry_for txt bytes_eq
to_played = turns-Steps 5 (connect v1 [] three []) (connect v1 [] three []) played here refl

connect-lost_example :
    (w' : World) × Steps played w'
    × ((u : World)
        → Steps w' u
        → (u.writing ≡ false) × (u.reading ≡ false) × (after u.registered u.ops ≡ true))
unfolding connect
connect-lost_example =
    connect-lost v1 [] three [] played (metadata_entry (stored (txt "a")))
      (metadata_entry (stored (txt "b"))) (metadata_entry (stored (txt "c"))) [] to_played refl refl
      refl

-- The listener of a client that is gone.
abbrev gone : World
gone = record played { writing = false; reading = false }

gone-IsAbandoned : IsAbandoned (stored (txt "a")) gone
unfolding connect entry_for txt bytes_eq
gone-IsAbandoned = record {
  leaked = record {
    unwritten = refl;
    unread = refl;
    none_removing = refl;
    none_closing = refl;
    unclosed = refl;
  };
  registered = refl;
  entry = metadata_entry (stored (txt "a"));
  watched = refl;
  oldest = some (stored (txt "a"));
  younger = some (stored (txt "b")) ∷ some (stored (txt "c")) ∷ [];
  history = refl;
}

hub_turn-abandoned_example :
    (w' : World) × Steps gone w' × ((u : World) → Steps w' u → hub_turn u ≡ none)
unfolding connect
hub_turn-abandoned_example =
    hub_turn-abandoned (stored (txt "a")) gone gone-IsAbandoned refl (omega arith)

-- Where nothing waits, both goroutines may find the channel open, and both close it: the second `close`
-- panics.
both_close : (w : World) × Steps (connect v1 [] [] []) w × (w.closed_twice ≡ true)
unfolding connect close remove_listener close_channel
both_close =
    let w = connect v1 [] [] [] in
    let apart : World = record w { reading = false; writing = false; removing = 2 } in
    let removed : World = record apart {
      ops = add ∷ remove ∷ remove ∷ [];
      removing = 0;
      closing = 2;
    } in
    let shut : World = record removed {
      listener = record w.listener { closed = true };
      closing = 0;
      closed_twice = true;
    } in
    let s : Steps w apart =
      then_step (then_step here (Step.hang_up_step refl)) (Step.ping_fails refl) in
    let t : Steps w removed =
      then_step (then_step s (Step.remove_step (omega arith) (omega arith)))
        (Step.remove_step (omega arith) (omega arith)) in
    (
      shut,
      then_step (then_step t (Step.close_step (omega arith))) (Step.close_step (omega arith)),
      refl,
    )
