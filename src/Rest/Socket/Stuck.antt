-- ===== src/Rest/Socket/Stuck.antt =====
-- A listener that is never removed stops the hub.
use go_inbucket.Base.{
  ℕ, zero, suc, ◌+◌, ◌-◌, ◌≤◌, ◌<◌, ◌≡◌, refl, ap, ◌∙◌, arith, Bool, true, false, Option, none,
  some, List, [], ◌∷◌, ◌++◌, leb, if◌then◌else◌, length, length-append,
}
use go_inbucket.Msghub.{Told, received}
use go_inbucket.Rest.Socket.{
  Entry, Listener, accepted, blocked, entry_for, send, tell, Op, dispatch, delete, World, relay,
  relay_if, run_op, hub_turn, Step, post_dispatch, post_delete, hub_step, write_step, ping_fails,
  hang_up_step, remove_step, close_step, Steps, here, then_step,
}
use go_inbucket.Rest.Socket.Leak.{IsLeaked, with_ops-IsLeaked}
use go_inbucket.Storage.Message.{Metadata}

-- No goroutine reads the channel, the hub has the listener, and keeps a history.
pub record IsAbandoned (m : Metadata) (w : World) : Type 0 where
  pub leaked : IsLeaked w
  pub registered : w.registered ≡ true
  pub entry : Entry
  pub watched : entry_for w.listener.version w.listener.mailbox (received m) ≡ some entry
  pub oldest : Option Metadata
  pub younger : List (Option Metadata)
  pub history : w.history ≡ oldest ∷ younger

-- The channel is full, and the next operation of the hub sends to it.
abbrev IsStuck : Metadata → World → Type 0
IsStuck m w =
    IsAbandoned m w × (100 ≤ length w.listener.queue) × ((os : List Op) × (w.ops ≡ dispatch m ∷ os))

send-full :
    (e : Entry) (l : Listener) → l.closed ≡ false → 100 ≤ length l.queue → send e l ≡ blocked
unfolding send
send-full e l open' full =
    let p : leb 100 (length l.queue) ≡ true = ground arith in rw (open', p) refl

tell-send :
    (t : Told) (e : Entry) (l : Listener)
    → entry_for l.version l.mailbox t ≡ some e
    → tell t l ≡ send e l
unfolding tell
tell-send t e l put = rw (put, tell) refl

hub_turn-dispatch :
    (m : Metadata) (os : List Op) (w : World)
    → (h : IsAbandoned m w) → w.ops ≡ dispatch m ∷ os
    → hub_turn w ≡ relay (received m) (record w { ops = os; history = h.younger ++ some m ∷ [] })
unfolding hub_turn run_op
hub_turn-dispatch m os w h e =
    ap (λ (ps : List Op). elim ps [ [] ↦ none | o ∷ ops ↦ run_op o (record w { ops = ops }) ]) e
    ∙ ap
        (λ (hs : List (Option Metadata)). elim hs [
          | [] ↦ some (record w { ops = os })
          | v ∷ rest ↦ relay_if (received m) (record w { ops = os; history = rest ++ some m ∷ [] })
        ])
        h.history
    ∙ ap
        (λ (b : Bool).
          let w' : World = record w { ops = os; history = h.younger ++ some m ∷ [] } in
          if b then relay (received m) w' else some w')
        h.registered

hub_turn-stuck : (m : Metadata) (w : World) → IsStuck m w → hub_turn w ≡ none
unfolding relay
hub_turn-stuck m w (h, full, (os, e)) =
    let told =
      tell-send (received m) h.entry w.listener h.watched
      ∙ send-full h.entry w.listener h.leaked.unclosed full in
    hub_turn-dispatch m os w h e ∙ rw (told, relay) refl

abbrev with_ops :
    (m : Metadata) (w : World) (os : List Op)
    → IsAbandoned m w
    → IsAbandoned m (record w { ops = os })
with_ops m w os h = record {
  leaked = with_ops-IsLeaked w os h.leaked;
  registered = h.registered;
  entry = h.entry;
  watched = h.watched;
  oldest = h.oldest;
  younger = h.younger;
  history = h.history;
}

Step-IsStuck : (m : Metadata) {w w' : World} → Step w w' → IsStuck m w → IsStuck m w'
Step-IsStuck m {w} (post_dispatch n space) (h, full, (os, e)) = (
  with_ops m w (w.ops ++ dispatch n ∷ []) h,
  full,
  (os ++ dispatch n ∷ [], ap (λ (ps : List Op). ps ++ dispatch n ∷ []) e),
)
Step-IsStuck m {w} (post_delete mailbox id space) (h, full, (os, e)) = (
  with_ops m w (w.ops ++ delete mailbox id ∷ []) h,
  full,
  (os ++ delete mailbox id ∷ [], ap (λ (ps : List Op). ps ++ delete mailbox id ∷ []) e),
)
Step-IsStuck m {w} (hub_step w' e) h = let p = hub_turn-stuck m w h in absurd (cc)
Step-IsStuck m (write_step success w' on e) h = let p = h.0.leaked.unwritten in absurd (cc)
Step-IsStuck m (ping_fails on) h = let p = h.0.leaked.unwritten in absurd (cc)
Step-IsStuck m (hang_up_step on) h = let p = h.0.leaked.unread in absurd (cc)
Step-IsStuck m (remove_step p space) h = absurd (omega (arith, p, h.0.leaked.none_removing))
Step-IsStuck m (close_step p) h = absurd (omega (arith, p, h.0.leaked.none_closing))

Steps-IsStuck : (m : Metadata) {w w' : World} → IsStuck m w → Steps w w' → IsStuck m w'
Steps-IsStuck m h here = h
Steps-IsStuck m h (then_step s t) = Step-IsStuck m t (Steps-IsStuck m h s)

snoc-cons :
    (l : List (Option Metadata)) (a : Option Metadata)
    → (v : Option Metadata) × (r : List (Option Metadata)) × (l ++ a ∷ [] ≡ v ∷ r)
snoc-cons [] a = (a, [], refl)
snoc-cons (x ∷ l) a = (x, l ++ a ∷ [], refl)

-- The world after a message was dispatched to a listener with room.
abbrev after_dispatch : (m : Metadata) (w : World) → IsAbandoned m w → World
after_dispatch m w h = record w {
  ops = [];
  history = h.younger ++ some m ∷ [];
  listener = record w.listener { queue = w.listener.queue ++ h.entry ∷ [] };
  told = w.told ++ received m ∷ [];
}

after_dispatch-IsAbandoned :
    (m : Metadata) (w : World) (h : IsAbandoned m w) → IsAbandoned m (after_dispatch m w h)
after_dispatch-IsAbandoned m w h =
    let (v, r, e) = snoc-cons h.younger (some m) in
    record {
      leaked = record {
        unwritten = h.leaked.unwritten;
        unread = h.leaked.unread;
        none_removing = h.leaked.none_removing;
        none_closing = h.leaked.none_closing;
        unclosed = h.leaked.unclosed;
      };
      registered = h.registered;
      entry = h.entry;
      watched = h.watched;
      oldest = v;
      younger = r;
      history = e;
    }

send-room :
    (e : Entry) (l : Listener)
    → l.closed ≡ false
    → length l.queue < 100
    → send e l ≡ accepted (record l { queue = l.queue ++ e ∷ [] })
unfolding send
send-room e l open' room =
    let p : leb 100 (length l.queue) ≡ false = ground arith in rw (open', p) refl

dispatch-Steps :
    (m : Metadata) (w u : World) (h : IsAbandoned m w)
    → w.ops ≡ []
    → length w.listener.queue < 100
    → Steps u w
    → Steps u (after_dispatch m w h)
unfolding relay
dispatch-Steps m w u h none_left room s =
    let posted : World = record w { ops = w.ops ++ dispatch m ∷ [] } in
    let h' = with_ops m w posted.ops h in
    let told =
      tell-send (received m) h.entry w.listener h.watched
      ∙ send-room h.entry w.listener h.leaked.unclosed room in
    then_step (then_step s (post_dispatch m (omega (arith, ap length none_left)))) (
      hub_step (after_dispatch m w h) (
        hub_turn-dispatch m [] posted h' (ap (λ (ps : List Op). ps ++ dispatch m ∷ []) none_left)
        ∙ rw (told, relay) refl))

fill :
    (k : ℕ) (m : Metadata) (w u : World)
    → IsAbandoned m w
    → w.ops ≡ []
    → length w.listener.queue + k ≡ 100
    → Steps u w
    → (w' : World) × Steps u w' × IsStuck m w'
fill zero m w u h none_left room s =
    let posted : World = record w { ops = w.ops ++ dispatch m ∷ [] } in
    (
      posted,
      then_step s (post_dispatch m (omega (arith, ap length none_left))),
      (
        with_ops m w posted.ops h,
        omega (arith, room),
        ([], ap (λ (ps : List Op). ps ++ dispatch m ∷ []) none_left),
      ),
    )
fill (suc k) m w u h none_left room s =
    fill k m (after_dispatch m w h) u (after_dispatch-IsAbandoned m w h) refl
      (omega (arith, room, length-append w.listener.queue (h.entry ∷ [])))
      (dispatch-Steps m w u h none_left (omega (arith, room)) s)

-- If a listener that the hub has is not closed, none of its goroutines runs or is in `Close`, and it watches the mailbox
-- of a message, then there is a sequence of steps, dispatches of that message and turns of the hub,
-- after which the hub does nothing more: whatever steps follow, it has no turn. The hub has
-- nothing to do at first, its history has room for a message, and at most 100 entries wait in the channel.
pub hub_turn-abandoned :
    (m : Metadata) (w : World)
    → IsAbandoned m w
    → w.ops ≡ []
    → length w.listener.queue ≤ 100
    → (w' : World) × Steps w w' × ((u : World) → Steps w' u → hub_turn u ≡ none)
hub_turn-abandoned m w h none_left room =
    let (w', s, stuck) =
      fill (100 - length w.listener.queue) m w w h none_left (omega (arith, room)) here in
    (w', s, λ u t. hub_turn-stuck m u (Steps-IsStuck m stuck t))
