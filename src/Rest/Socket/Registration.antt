-- ===== src/Rest/Socket/Registration.antt =====
-- Whether the hub still has a listener: after the operations that wait in its channel.
use mathlib.Core.Path.{subst}
use go_inbucket.Base.{
  ◌+◌, ◌<◌, ◌||◌, ltb, arith, ◌≡◌, inl, inr, refl, ap, sym, ◌∙◌, Bool, true, false, not, Option,
  none, some, List, [], ◌∷◌, ◌++◌, if◌then◌else◌, Bytes,
}
use go_inbucket.Rest.Socket.{
  Version, Entry, close_frame, frame_of, Op, dispatch, delete, add, remove, World, connect, run_op,
  hub_turn, close, write_turn, end_writer, Step, post_dispatch, post_delete, hub_step, write_step,
  ping_fails, hang_up_step, remove_step, close_step, remove_listener, close_channel, Steps, here,
  then_step,
}
use go_inbucket.Storage.Message.{Metadata}
use go_inbucket.Rest.Socket.Operations.{
  after, registers, after-append, lower, Registers, run_op-Registers,
}

-- In the end the hub has the listener exactly if no goroutine has called `RemoveListener`: the channel is
-- not closed, and none is about to close it.
abbrev pub IsKept : World → Type 0
IsKept w = after w.registered w.ops ≡ not (w.listener.closed || ltb 0 w.closing)

abbrev EachKept : Option World → Type 0
EachKept none = Unit
EachKept (some w) = IsKept w

hub_turn-EachKept : (w : World) → IsKept w → EachKept (hub_turn w)
unfolding hub_turn
hub_turn-EachKept w h = go w.ops h
  where
    ran :
        (o : Op) (os : List Op) (r : Option World)
        → after w.registered (o ∷ os) ≡ not (w.listener.closed || ltb 0 w.closing)
        → Registers (record w { ops = os }) (registers o w.registered) r
        → EachKept r
    ran o os none k e = tt
    ran o os (some w') k (g, open', inl x) =
        let near = ap (λ p. p.1.1.1) g in x ∙ k ∙ rw (open', near) refl
    ran o os (some w') k (g, open', inr (shut, x, y)) =
        let gone : after true os ≡ false =
          ap (λ (b : Bool). after b os) (sym y) ∙ k ∙ rw shut refl in
        let shut' = open' ∙ shut in x ∙ lower w.registered os gone ∙ rw shut' refl

    go :
        (os : List Op)
        → after w.registered os ≡ not (w.listener.closed || ltb 0 w.closing)
        → EachKept (elim os [ [] ↦ none | o ∷ ops ↦ run_op o (record w { ops = ops }) ])
    go [] k = tt
    go (o ∷ os) k =
        ran o os (run_op o (record w { ops = os })) k (run_op-Registers o (record w { ops = os }))

close-IsKept : (w : World) → IsKept w → IsKept (close w)
unfolding close
close-IsKept w h = go w.listener.queue w.listener.closed refl
  where
    go :
        (q : List Entry) (b : Bool)
        → w.listener.closed ≡ b
        → IsKept (elim q [
          | x ∷ r ↦ record w { listener = record w.listener { queue = r } }
          | [] ↦ if b then w else record w { removing = w.removing + 1 }
        ])
    go (x ∷ r) b e = h
    go [] true e = h
    go [] false e = h

write_turn-EachKept : (success : Bool) (w : World) → IsKept w → EachKept (write_turn success w)
unfolding write_turn
write_turn-EachKept success w h = go w.listener.queue w.listener.closed
  where
    wrote :
        (b : Bool) (x : Entry) (r : List Entry)
        → let w' : World = record w { listener = record w.listener { queue = r } } in
          IsKept (if b then record w' { sent = w.sent ++ frame_of x ∷ [] } else end_writer w')
    wrote true x r = h
    wrote false x r =
        close-IsKept (record w { listener = record w.listener { queue = r }; writing = false }) h

    go :
        (q : List Entry) (b : Bool)
        → EachKept (elim q [
          | x ∷ r ↦
              let w' : World = record w { listener = record w.listener { queue = r } } in
              some
                (if success then record w' { sent = w.sent ++ frame_of x ∷ [] } else end_writer w')
          | [] ↦
              if b then some (end_writer (record w { sent = w.sent ++ close_frame ∷ [] })) else none
        ])
    go (x ∷ r) b = wrote success x r
    go [] true = close-IsKept (record w { sent = w.sent ++ close_frame ∷ []; writing = false }) h
    go [] false = tt

remove_listener-IsKept : (w : World) → IsKept (remove_listener w)
unfolding remove_listener
remove_listener-IsKept w =
    after-append w.registered w.ops (remove ∷ [])
    ∙ go w.listener.closed (ltb 0 (w.closing + 1)) (ground arith)
  where
    go : (b c : Bool) → c ≡ true → false ≡ not (b || c)
    go b c e = ground (arith, e)

close_channel-IsKept : (w : World) → 0 < w.closing → IsKept w → IsKept (close_channel w)
unfolding close_channel
close_channel-IsKept w p h = h ∙ go w.listener.closed (ltb 0 w.closing) (ground (arith, p))
  where
    go : (b c : Bool) → c ≡ true → not (b || c) ≡ false
    go b c e = ground (arith, e)

pub Step-IsKept : {w w' : World} → Step w w' → IsKept w → IsKept w'
Step-IsKept {w} (post_dispatch m room) h = after-append w.registered w.ops (dispatch m ∷ []) ∙ h
Step-IsKept {w} (post_delete mailbox id room) h =
    after-append w.registered w.ops (delete mailbox id ∷ []) ∙ h
Step-IsKept {w} (hub_step w' e) h = subst EachKept (e) (hub_turn-EachKept w h)
Step-IsKept {w} (write_step success w' on e) h =
    subst EachKept (e) (write_turn-EachKept success w h)
Step-IsKept {w} (ping_fails on) h = close-IsKept (record w { writing = false }) h
Step-IsKept {w} (hang_up_step on) h = close-IsKept (record w { reading = false }) h
Step-IsKept {w} (remove_step p room) h = remove_listener-IsKept w
Step-IsKept {w} (close_step p) h = close_channel-IsKept w p h

pub Steps-IsKept : {w w' : World} → IsKept w → Steps w w' → IsKept w'
Steps-IsKept h here = h
Steps-IsKept h (then_step s t) = Step-IsKept t (Steps-IsKept h s)

-- Whatever steps are taken, in any order, from the time when a client connects: once the hub has run the
-- operations that then wait in its channel, the listener is registered if its own channel is not closed
-- and neither goroutine has called `RemoveListener` and is about to close it, and otherwise it is not
-- registered.
pub connect-IsKept :
    (v : Version) (mailbox : Bytes) (history : List (Option Metadata)) (ops : List Op) (w : World)
    → Steps (connect v mailbox history ops) w
    → after w.registered w.ops ≡ not (w.listener.closed || ltb 0 w.closing)
unfolding connect
connect-IsKept v mailbox history ops w s = Steps-IsKept (after-append false ops (add ∷ [])) s
