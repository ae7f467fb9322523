-- ===== src/Rest/Socket/Invariant.antt =====
-- What a websocket is sent, in every order of the steps of the hub, the goroutines and the clients.
use go_inbucket.Base.{
  ◌≤◌, ◌+◌, ◌≡◌, ◌⊎◌, inl, inr, refl, ap, sym, ◌∙◌, arith, Bool, true, false, Option, none, some,
  List, [], ◌∷◌, ◌++◌, map, if◌then◌else◌, Bytes, length, append_assoc, All, All-append,
}
use mathlib.Core.Path.{subst}
use go_inbucket.Msghub.{Told}
use go_inbucket.Rest.Socket.{
  Version, Entry, Frame, close_frame, Listener, Op, World, connect, close, frame_of, write_turn,
  end_writer, Step, post_dispatch, post_delete, hub_step, write_step, ping_fails, hang_up_step,
  remove_step, close_step, remove_listener, close_channel, Steps, here, then_step,
}
use go_inbucket.Storage.Message.{Metadata}
use go_inbucket.Rest.Socket.Closing.{HasEnded, IsEnding, closing-HasEnded, Step-IsEnding}
use go_inbucket.Rest.Socket.Sound.{IsWatched, IsSound}
use go_inbucket.Rest.Socket.Turns.{IsSoundWorld, EachSound, hub_turn-EachSound}

module _ (origin : Version × Bytes) where
  ended-IsSound :
      (l : Listener) (told : List Told) (sent : List Frame) (writing reading : Bool)
      → (writing ≡ false) ⊎ (reading ≡ false)
      → (l.version, l.mailbox) ≡ origin
      → (length l.queue ≤ 100) × All (IsWatched l.mailbox) (map frame_of l.queue)
      → All (IsWatched l.mailbox) sent
      → IsSound origin l told sent writing reading
  ended-IsSound l told sent writing reading e kept (room, waits) watched = record {
    kept = kept;
    room = room;
    waits = waits;
    watched = watched;
    ordered = λ w r. elim e [ inl x ↦ absurd (cc) | inr x ↦ absurd (cc) ];
  }

  -- `Close`, once one of the goroutines has ended.
  close-IsSound :
      (w : World)
      → HasEnded w
      → (w.listener.version, w.listener.mailbox) ≡ origin
      → (length w.listener.queue ≤ 100)
        × All (IsWatched w.listener.mailbox) (map frame_of w.listener.queue)
      → All (IsWatched w.listener.mailbox) w.sent
      → IsSoundWorld origin (close w)
  unfolding close
  close-IsSound w e kept waits watched = go w.listener.queue waits
    where
      plain :
          (b : Bool) → IsSoundWorld origin (if b then w else record w { removing = w.removing + 1 })
      plain true = ended-IsSound w.listener w.told w.sent w.writing w.reading e kept waits watched
      plain false = ended-IsSound w.listener w.told w.sent w.writing w.reading e kept waits watched

      go :
          (q : List Entry)
          → (length q ≤ 100) × All (IsWatched w.listener.mailbox) (map frame_of q)
          → IsSoundWorld origin (elim q [
            | x ∷ r ↦ record w { listener = record w.listener { queue = r } }
            | [] ↦ if w.listener.closed then w else record w { removing = w.removing + 1 }
          ])
      go [] k = plain w.listener.closed
      go (x ∷ r) k =
          ended-IsSound (record w.listener { queue = r }) w.told w.sent w.writing w.reading e kept
            (omega (arith, k.0), k.1.1) watched

  -- The record of a world whose writer took the oldest entry.
  taken-EachSound :
      (success : Bool) (w : World) (x : Entry) (q : List Entry)
      → w.listener.queue ≡ x ∷ q
      → IsSoundWorld origin w
      → let w' : World = record w { listener = record w.listener { queue = q } } in
        IsSoundWorld origin
          (if success then record w' { sent = w.sent ++ frame_of x ∷ [] } else end_writer w')
  taken-EachSound true w x q e h =
      let all =
        subst (λ (r : List Entry). All (IsWatched w.listener.mailbox) (map frame_of r)) e h.waits in
      record {
        kept = h.kept;
        room = omega (arith, h.room, ap length e);
        waits = all.1;
        watched =
            All-append (IsWatched w.listener.mailbox) w.sent (frame_of x ∷ []) h.watched
              (all.0, tt);
        ordered = λ a b.
            let (unshut, same) = h.ordered a b in
            (
              unshut,
              append_assoc w.sent (frame_of x ∷ []) (map frame_of q)
                  ∙ ap (λ (r : List Entry). w.sent ++ map frame_of r) (sym e)
                  ∙ same,
            );
      }
  taken-EachSound false w x q e h =
      let all =
        subst (λ (r : List Entry). All (IsWatched w.listener.mailbox) (map frame_of r)) e h.waits in
      close-IsSound (record w { listener = record w.listener { queue = q }; writing = false })
        (inl refl) h.kept (omega (arith, h.room, ap length e), all.1) h.watched

  write_turn-EachSound :
      (success : Bool) (w : World) → IsSoundWorld origin w → EachSound origin (write_turn success w)
  unfolding write_turn
  write_turn-EachSound success w h = go w.listener.queue refl
    where
      last :
          (b : Bool)
          → EachSound origin (
              if b
              then some (end_writer (record w { sent = w.sent ++ close_frame ∷ [] }))
              else none)
      last true =
          close-IsSound (record w { sent = w.sent ++ close_frame ∷ []; writing = false }) (inl refl)
            h.kept (h.room, h.waits)
            (All-append (IsWatched w.listener.mailbox) w.sent (close_frame ∷ []) h.watched (tt, tt))
      last false = tt

      go :
          (q : List Entry)
          → w.listener.queue ≡ q
          → EachSound origin (elim q [
            | x ∷ r ↦
                let w' : World = record w { listener = record w.listener { queue = r } } in
                some (
                  if success then record w' { sent = w.sent ++ frame_of x ∷ [] } else end_writer w')
            | [] ↦
                if w.listener.closed
                then some (end_writer (record w { sent = w.sent ++ close_frame ∷ [] }))
                else none
          ])
      go [] e = last w.listener.closed
      go (x ∷ r) e = taken-EachSound success w x r e h

  Step-IsSound :
      {w w' : World} → Step w w' → IsEnding w → IsSoundWorld origin w → IsSoundWorld origin w'
  unfolding remove_listener close_channel
  Step-IsSound (post_dispatch m room) i h = h
  Step-IsSound (post_delete mailbox id room) i h = h
  Step-IsSound {w} (hub_step w' e) i h =
      subst (EachSound origin) (e) (hub_turn-EachSound origin w h)
  Step-IsSound {w} (write_step success w' on e) i h =
      subst (EachSound origin) (e) (write_turn-EachSound success w h)
  Step-IsSound {w} (ping_fails on) i h =
      close-IsSound (record w { writing = false }) (inl refl) h.kept (h.room, h.waits) h.watched
  Step-IsSound {w} (hang_up_step on) i h =
      close-IsSound (record w { reading = false }) (inr refl) h.kept (h.room, h.waits) h.watched
  Step-IsSound {w} (remove_step p room) i h = h
  Step-IsSound {w} (close_step p) i h =
      ended-IsSound (record w.listener { closed = true }) w.told w.sent w.writing w.reading
        (closing-HasEnded w i p) h.kept (h.room, h.waits) h.watched

  Steps-IsSound :
      {w w' : World}
      → IsEnding w
      → IsSoundWorld origin w
      → Steps w w'
      → IsEnding w' × IsSoundWorld origin w'
  Steps-IsSound i h here = (i, h)
  Steps-IsSound i h (then_step s t) =
      let (i', h') = Steps-IsSound i h s in (Step-IsEnding t i', Step-IsSound t i' h')

-- Whatever steps are taken, in any order, from the time when a client connects to watch a mailbox, or all
-- of them: the listener still has its version and its mailbox, its channel holds at most 100 entries,
-- and each frame that was sent or waits is about a mailbox that is watched. As long as neither
-- `WSWriter` nor `WSReader` has ended, the channel is not closed, and the frames that were sent,
-- followed by those that wait, are exactly the frames for what the hub told the listener, in order.
pub connect-IsSound :
    (v : Version) (mailbox : Bytes) (history : List (Option Metadata)) (ops : List Op) (w : World)
    → Steps (connect v mailbox history ops) w
    → IsSound (v, mailbox) w.listener w.told w.sent w.writing w.reading
unfolding connect
connect-IsSound v mailbox history ops w s =
    (Steps-IsSound (v, mailbox) (inr (refl, refl))
      (record {
        kept = refl;
        room = omega arith;
        waits = tt;
        watched = tt;
        ordered = λ a b. (refl, refl);
      })
      s).1
