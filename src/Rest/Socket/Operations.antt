-- ===== src/Rest/Socket/Operations.antt =====
-- What the operations in the hub's channel do to a listener's registration.
use go_inbucket.Base.{
  ℕ, ◌≡◌, ◌⊎◌, inl, inr, refl, Bool, true, false, Option, none, some, List, [], ◌∷◌, ◌++◌, leb,
  if◌then◌else◌, length,
}
use go_inbucket.Msghub.{Told, received, deleted, clear_entry}
use go_inbucket.Rest.Socket.{
  Entry, Listener, Outcome, accepted, blocked, panicked, entry_for, send, tell, Op, dispatch,
  delete, add, playback, remove, World, relay, relay_if, play, run_op,
}
use go_inbucket.Storage.Message.{Metadata}

-- What an operation does to the registration.
abbrev pub registers : Op → Bool → Bool
registers (dispatch m) r = r
registers (delete mailbox id) r = r
registers add r = true
registers (playback ms) r = true
registers remove r = false

-- The registration after some operations.
abbrev pub after : Bool → List Op → Bool
after r [] = r
after r (o ∷ os) = after (registers o r) os

pub after-append : (r : Bool) (os ps : List Op) → after r (os ++ ps) ≡ after (after r os) ps
after-append r [] ps = refl
after-append r (o ∷ os) ps = after-append (registers o r) os ps

after_mono : (os : List Op) → after true os ≡ false → after false os ≡ false
after_mono [] h = refl
after_mono (dispatch m ∷ os) h = after_mono os h
after_mono (delete mailbox id ∷ os) h = after_mono os h
after_mono (add ∷ os) h = h
after_mono (playback ms ∷ os) h = h
after_mono (remove ∷ os) h = h

pub lower : (r : Bool) (os : List Op) → after true os ≡ false → after r os ≡ false
lower true os h = h
lower false os h = after_mono os h

-- A call closes no channel, and panics only if it is closed.
abbrev Leaves : Listener → Outcome → Type 0
Leaves l (accepted l') = l'.closed ≡ l.closed
Leaves l blocked = Unit
Leaves l panicked = l.closed ≡ true

send-Leaves : (e : Entry) (l : Listener) → Leaves l (send e l)
unfolding send
send-Leaves e l = go l.closed refl (leb 100 (length l.queue))
  where
    go :
        (b : Bool)
        → l.closed ≡ b
        → (full : Bool)
        → Leaves l (
            if b
            then panicked
            else if full
            then blocked
            else accepted (record l { queue = l.queue ++ e ∷ [] }))
    go true shut full = shut
    go false shut true = tt
    go false shut false = refl

tell-Leaves : (t : Told) (l : Listener) → Leaves l (tell t l)
unfolding tell
tell-Leaves t l = go (entry_for l.version l.mailbox t)
  where
    go : (o : Option Entry) → Leaves l (elim o [ none ↦ accepted l | some e ↦ send e l ])
    go none = refl
    go (some e) = send-Leaves e l

abbrev goroutines : World → Bool × (Bool × (ℕ × ℕ))
goroutines w = (w.writing, (w.reading, (w.removing, w.closing)))

-- What an operation leaves, if it returns: the registration, after the operations that follow, is what
-- it should be, or the channel is closed, the registration as it was, and the listener was to be
-- added. It ends no goroutine.
abbrev pub Registers : World → Bool → Option World → Type 0
Registers w r none = Unit
Registers w r (some w') =
    (goroutines w' ≡ goroutines w)
    × (w'.listener.closed ≡ w.listener.closed)
    × ((after w'.registered w'.ops ≡ after r w.ops)
        ⊎ ((w.listener.closed ≡ true)
            × (after w'.registered w'.ops ≡ after w.registered w.ops)
            × (r ≡ true)))

relay-Registers : (t : Told) (w : World) → Registers w w.registered (relay t w)
unfolding relay
relay-Registers t w = go (tell t w.listener) (tell-Leaves t w.listener)
  where
    go :
        (o : Outcome)
        → Leaves w.listener o
        → Registers w w.registered (elim o [
          | accepted l ↦ some (record w { listener = l; told = w.told ++ t ∷ [] })
          | blocked ↦ none
          | panicked ↦ some w
        ])
    go (accepted l) k = (refl, k, inl refl)
    go blocked k = tt
    go panicked k = (refl, refl, inl refl)

relay_if-Registers : (t : Told) (w : World) → Registers w w.registered (relay_if t w)
relay_if-Registers t w = go w.registered (relay-Registers t w)
  where
    go :
        (b : Bool)
        → Registers w w.registered (relay t w)
        → Registers w w.registered (if b then relay t w else some w)
    go true k = k
    go false k = (refl, refl, inl refl)

play-Registers : (ms : List Metadata) (w : World) → Registers w true (play ms w)
unfolding play
play-Registers [] w = (refl, refl, inl refl)
play-Registers (m ∷ ms) w = go (tell (received m) w.listener) (tell-Leaves (received m) w.listener)
  where
    go :
        (o : Outcome)
        → Leaves w.listener o
        → Registers w true (elim o [
          | accepted l ↦ some (record w {
            ops = playback ms ∷ w.ops;
            listener = l;
            told = w.told ++ received m ∷ [];
          })
          | blocked ↦ none
          | panicked ↦ some w
        ])
    go (accepted l) k = (refl, k, inl refl)
    go blocked k = tt
    go panicked k = (refl, refl, inr (k, refl, refl))

pub run_op-Registers : (o : Op) (w : World) → Registers w (registers o w.registered) (run_op o w)
unfolding run_op
run_op-Registers (dispatch m) w = go w.history
  where
    go :
        (hs : List (Option Metadata))
        → Registers w w.registered (elim hs [
          | [] ↦ some w
          | v ∷ rest ↦ relay_if (received m) (record w { history = rest ++ some m ∷ [] })
        ])
    go [] = (refl, refl, inl refl)
    go (v ∷ rest) = relay_if-Registers (received m) (record w { history = rest ++ some m ∷ [] })
run_op-Registers (delete mailbox id) w = go w.history
  where
    go :
        (hs : List (Option Metadata))
        → Registers w w.registered (elim hs [
          | [] ↦ some w
          | v ∷ rest ↦
              relay_if
                (deleted mailbox id)
                (record w { history = clear_entry mailbox id w.history })
        ])
    go [] = (refl, refl, inl refl)
    go (v ∷ rest) =
        relay_if-Registers (deleted mailbox id)
          (record w { history = clear_entry mailbox id w.history })
run_op-Registers add w = (refl, refl, inl refl)
run_op-Registers (playback ms) w = play-Registers ms w
run_op-Registers remove w = (refl, refl, inl refl)
