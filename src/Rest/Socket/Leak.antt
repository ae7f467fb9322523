-- ===== src/Rest/Socket/Leak.antt =====
-- `Close` takes an entry that waits for a sign that the channel is closed: a listener may never be
-- removed, and then the hub stops.
use mathlib.Core.Path.{subst}
use go_inbucket.Base.{
  arith, inl, inr, ltb, ◌++◌, ◌≡◌, refl, ap, ◌∙◌, Bool, true, false, Option, none, some, List, [],
  ◌∷◌, Bytes,
}
use go_inbucket.Rest.Socket.{
  Version, Entry, Op, World, connect, run_op, hub_turn, close, write_turn, Step, post_dispatch,
  post_delete, hub_step, write_step, ping_fails, hang_up_step, remove_step, close_step, dispatch,
  delete, Steps, here, then_step,
}
use go_inbucket.Rest.Socket.Closing.{IsEnding, Steps-IsEnding}
use go_inbucket.Rest.Socket.Invariant.{connect-IsSound}
use go_inbucket.Rest.Socket.Operations.{after, registers, Registers, run_op-Registers}
use go_inbucket.Rest.Socket.Registration.{IsKept, Step-IsKept, Steps-IsKept, connect-IsKept}
use go_inbucket.Storage.Message.{Metadata}

-- Both goroutines have ended, neither is in `Close`, and the channel is not closed.
pub record IsLeaked (w : World) : Type 0 where
  pub unwritten : w.writing ≡ false
  pub unread : w.reading ≡ false
  pub none_removing : w.removing ≡ 0
  pub none_closing : w.closing ≡ 0
  pub unclosed : w.listener.closed ≡ false

abbrev EachLeaked : Option World → Type 0
EachLeaked none = Unit
EachLeaked (some w) = IsLeaked w

hub_turn-EachLeaked : (w : World) → IsLeaked w → EachLeaked (hub_turn w)
unfolding hub_turn
hub_turn-EachLeaked w h = go w.ops
  where
    ran :
        (os : List Op) (r : Bool) (o : Option World)
        → Registers (record w { ops = os }) r o
        → EachLeaked o
    ran os r none k = tt
    ran os r (some w') k = record {
      unwritten = ap (λ p. p.0) k.0 ∙ h.unwritten;
      unread = ap (λ p. p.1.0) k.0 ∙ h.unread;
      none_removing = ap (λ p. p.1.1.0) k.0 ∙ h.none_removing;
      none_closing = ap (λ p. p.1.1.1) k.0 ∙ h.none_closing;
      unclosed = k.1 ∙ h.unclosed;
    }

    go :
        (os : List Op)
        → EachLeaked (elim os [ [] ↦ none | o ∷ ops ↦ run_op o (record w { ops = ops }) ])
    go [] = tt
    go (o ∷ os) =
        ran os (registers o w.registered) (run_op o (record w { ops = os }))
          (run_op-Registers o (record w { ops = os }))

abbrev pub with_ops-IsLeaked :
    (w : World) (os : List Op) → IsLeaked w → IsLeaked (record w { ops = os })
with_ops-IsLeaked w os h = record {
  unwritten = h.unwritten;
  unread = h.unread;
  none_removing = h.none_removing;
  none_closing = h.none_closing;
  unclosed = h.unclosed;
}

Step-IsLeaked : {w w' : World} → Step w w' → IsLeaked w → IsLeaked w'
Step-IsLeaked {w} (post_dispatch m room) h = with_ops-IsLeaked w (w.ops ++ dispatch m ∷ []) h
Step-IsLeaked {w} (post_delete mailbox id room) h =
    with_ops-IsLeaked w (w.ops ++ delete mailbox id ∷ []) h
Step-IsLeaked {w} (hub_step w' e) h = subst EachLeaked (e) (hub_turn-EachLeaked w h)
Step-IsLeaked (write_step success w' on e) h = let p = h.unwritten in absurd (cc)
Step-IsLeaked (ping_fails on) h = let p = h.unwritten in absurd (cc)
Step-IsLeaked (hang_up_step on) h = let p = h.unread in absurd (cc)
Step-IsLeaked (remove_step p room) h = absurd (omega (arith, p, h.none_removing))
Step-IsLeaked (close_step p) h = absurd (omega (arith, p, h.none_closing))

Steps-IsLost : {w w' : World} → IsLeaked w → IsKept w → Steps w w' → IsLeaked w' × IsKept w'
Steps-IsLost l k here = (l, k)
Steps-IsLost l k (then_step s t) =
    let (l', k') = Steps-IsLost l k s in (Step-IsLeaked t l', Step-IsKept t k')

-- A failed write takes the first entry, and each of the two calls of `Close` one of the next two.
lose :
    (w : World) (x y z : Entry) (q : List Entry)
    → w.writing ≡ true
    → w.reading ≡ true
    → (w.removing ≡ 0) × (w.closing ≡ 0)
    → w.listener.closed ≡ false
    → w.listener.queue ≡ x ∷ y ∷ z ∷ q
    → (w' : World) × Steps w w' × IsLeaked w'
unfolding write_turn close
lose w x y z q a b d c e =
    let left : World = record w {
      listener = record w.listener { queue = z ∷ q };
      writing = false;
    } in
    let gone : World = record left {
      listener = record w.listener { queue = q };
      reading = false;
    } in
    (
      gone,
      then_step (then_step here (write_step false left a (rw (e, write_turn) refl)))
          (hang_up_step b),
      record {
        unwritten = refl;
        unread = refl;
        none_removing = d.0;
        none_closing = d.1;
        unclosed = c;
      },
    )

connect-IsEnding :
    (v : Version) (mailbox : Bytes) (history : List (Option Metadata)) (ops : List Op) (w : World)
    → Steps (connect v mailbox history ops) w
    → IsEnding w
unfolding connect
connect-IsEnding v mailbox history ops w s = Steps-IsEnding (inr (refl, refl)) s

-- If a client is connected and three entries or more wait for it, then a write that fails, followed by the
-- end of the connection, ends both goroutines and leaves the channel open. From then on, whatever steps
-- are taken, no goroutine runs, and the listener is registered once the hub has run the operations
-- that then wait in its channel: it is never removed.
pub connect-lost :
    (v : Version) (mailbox : Bytes) (history : List (Option Metadata)) (ops : List Op) (w : World)
    (x y z : Entry) (q : List Entry)
    → Steps (connect v mailbox history ops) w
    → w.writing ≡ true
    → w.reading ≡ true
    → w.listener.queue ≡ x ∷ y ∷ z ∷ q
    → (w' : World) × Steps w w'
      × ((u : World)
          → Steps w' u
          → (u.writing ≡ false) × (u.reading ≡ false) × (after u.registered u.ops ≡ true))
connect-lost v mailbox history ops w x y z q s a b e =
    let sound = connect-IsSound v mailbox history ops w s in
    let outside : (w.removing ≡ 0) × (w.closing ≡ 0) =
      elim (connect-IsEnding v mailbox history ops w s) [
        | inl (inl x) ↦ absurd (cc)
        | inl (inr x) ↦ absurd (cc)
        | inr d ↦ d
      ] in
    let (w', t, lost) = lose w x y z q a b outside (sound.ordered a b).0 e in
    (
      w',
      t,
      λ u r.
          let (l, k) =
            Steps-IsLost lost (Steps-IsKept (connect-IsKept v mailbox history ops w s) t) r in
          let open' = l.unclosed in
          let none_near : ltb 0 u.closing ≡ false = let p = l.none_closing in ground (arith, p) in
          (l.unwritten, l.unread, k ∙ rw (open', none_near) refl),
    )
