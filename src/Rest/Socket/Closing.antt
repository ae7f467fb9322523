-- ===== src/Rest/Socket/Closing.antt =====
-- Whose `Close` it is: a goroutine that has left its loop.
use mathlib.Core.Path.{subst}
use go_inbucket.Base.{
  ◌+◌, ◌<◌, ◌≡◌, ◌⊎◌, inl, inr, refl, ap, ◌∙◌, arith, Bool, true, false, Option, none, some, List,
  [], ◌∷◌, ◌++◌, if◌then◌else◌,
}
use go_inbucket.Rest.Socket.{
  Entry, close_frame, frame_of, Op, World, run_op, hub_turn, close, write_turn, end_writer,
  remove_listener, close_channel, Step, post_dispatch, post_delete, hub_step, write_step,
  ping_fails, hang_up_step, remove_step, close_step, Steps, here, then_step,
}
use go_inbucket.Rest.Socket.Operations.{registers, Registers, run_op-Registers}

-- One of the two goroutines has left its loop.
abbrev pub HasEnded : World → Type 0
HasEnded w = (w.writing ≡ false) ⊎ (w.reading ≡ false)

-- No goroutine is in `Close` while both are in their loops.
abbrev pub IsEnding : World → Type 0
IsEnding w = HasEnded w ⊎ ((w.removing ≡ 0) × (w.closing ≡ 0))

abbrev EachEnding : Option World → Type 0
EachEnding none = Unit
EachEnding (some w) = IsEnding w

hub_turn-EachEnding : (w : World) → IsEnding w → EachEnding (hub_turn w)
unfolding hub_turn
hub_turn-EachEnding w h = go w.ops
  where
    ran :
        (os : List Op) (r : Bool) (o : Option World)
        → Registers (record w { ops = os }) r o
        → EachEnding o
    ran os r none k = tt
    ran os r (some w') k = elim h [
      | inl (inl a) ↦ inl (inl (ap (λ p. p.0) k.0 ∙ a))
      | inl (inr b) ↦ inl (inr (ap (λ p. p.1.0) k.0 ∙ b))
      | inr (c, d) ↦ inr (ap (λ p. p.1.1.0) k.0 ∙ c, ap (λ p. p.1.1.1) k.0 ∙ d)
    ]

    go :
        (os : List Op)
        → EachEnding (elim os [ [] ↦ none | o ∷ ops ↦ run_op o (record w { ops = ops }) ])
    go [] = tt
    go (o ∷ os) =
        ran os (registers o w.registered) (run_op o (record w { ops = os }))
          (run_op-Registers o (record w { ops = os }))

close-HasEnded : (w : World) → HasEnded w → HasEnded (close w)
unfolding close
close-HasEnded w h = go w.listener.queue w.listener.closed
  where
    go :
        (q : List Entry) (b : Bool)
        → HasEnded (elim q [
          | x ∷ r ↦ record w { listener = record w.listener { queue = r } }
          | [] ↦ if b then w else record w { removing = w.removing + 1 }
        ])
    go (x ∷ r) b = h
    go [] true = h
    go [] false = h

write_turn-EachEnding :
    (success : Bool) (w : World) → IsEnding w → EachEnding (write_turn success w)
unfolding write_turn
write_turn-EachEnding success w h = go w.listener.queue w.listener.closed
  where
    wrote :
        (b : Bool) (x : Entry) (r : List Entry)
        → let w' : World = record w { listener = record w.listener { queue = r } } in
          IsEnding (if b then record w' { sent = w.sent ++ frame_of x ∷ [] } else end_writer w')
    wrote true x r = h
    wrote false x r = inl (
        close-HasEnded (record w { listener = record w.listener { queue = r }; writing = false })
          (inl refl))

    go :
        (q : List Entry) (b : Bool)
        → EachEnding (elim q [
          | x ∷ r ↦
              let w' : World = record w { listener = record w.listener { queue = r } } in
              some
                (if success then record w' { sent = w.sent ++ frame_of x ∷ [] } else end_writer w')
          | [] ↦
              if b then some (end_writer (record w { sent = w.sent ++ close_frame ∷ [] })) else none
        ])
    go (x ∷ r) b = wrote success x r
    go [] true = inl (
        close-HasEnded (record w { sent = w.sent ++ close_frame ∷ []; writing = false }) (inl refl))
    go [] false = tt

-- A goroutine that is in `Close` has left its loop.
pub removing-HasEnded : (w : World) → IsEnding w → 0 < w.removing → HasEnded w
removing-HasEnded w h p = elim h [ inl e ↦ e | inr (a, b) ↦ absurd (omega (arith, a, p)) ]

pub closing-HasEnded : (w : World) → IsEnding w → 0 < w.closing → HasEnded w
closing-HasEnded w h p = elim h [ inl e ↦ e | inr (a, b) ↦ absurd (omega (arith, b, p)) ]

pub Step-IsEnding : {w w' : World} → Step w w' → IsEnding w → IsEnding w'
unfolding remove_listener close_channel
Step-IsEnding (post_dispatch m room) h = h
Step-IsEnding (post_delete mailbox id room) h = h
Step-IsEnding {w} (hub_step w' e) h = subst EachEnding (e) (hub_turn-EachEnding w h)
Step-IsEnding {w} (write_step success w' on e) h =
    subst EachEnding (e) (write_turn-EachEnding success w h)
Step-IsEnding {w} (ping_fails on) h = inl (close-HasEnded (record w { writing = false }) (inl refl))
Step-IsEnding {w} (hang_up_step on) h =
    inl (close-HasEnded (record w { reading = false }) (inr refl))
Step-IsEnding {w} (remove_step p room) h = inl (removing-HasEnded w h p)
Step-IsEnding {w} (close_step p) h = inl (closing-HasEnded w h p)

pub Steps-IsEnding : {w w' : World} → IsEnding w → Steps w w' → IsEnding w'
Steps-IsEnding h here = h
Steps-IsEnding h (then_step s t) = Step-IsEnding t (Steps-IsEnding h s)
