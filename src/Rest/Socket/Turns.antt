-- ===== src/Rest/Socket/Turns.antt =====
-- A turn of the hub, for what a websocket is sent.
use go_inbucket.Base.{
  Bool, true, false, Option, none, some, List, [], ◌∷◌, ◌++◌, if◌then◌else◌, Bytes,
}
use go_inbucket.Msghub.{Told, received, deleted, clear_entry}
use go_inbucket.Rest.Socket.{
  Version, Outcome, accepted, blocked, panicked, tell, Op, dispatch, delete, add, playback, remove,
  World, relay, relay_if, play, run_op, hub_turn,
}
use go_inbucket.Storage.Message.{Metadata}
use go_inbucket.Rest.Socket.Sound.{IsSound, Keeps, tell-Keeps}

module _ (origin : Version × Bytes) where
  abbrev pub IsSoundWorld : World → Type 0
  IsSoundWorld w = IsSound origin (w.listener) w.told w.sent w.writing w.reading

  abbrev pub EachSound : Option World → Type 0
  EachSound none = Unit
  EachSound (some w) = IsSoundWorld w

  relay-EachSound : (t : Told) (w : World) → IsSoundWorld w → EachSound (relay t w)
  unfolding relay
  relay-EachSound t w h =
      go (tell t w.listener) (tell-Keeps origin t w.listener w.told w.sent w.writing w.reading h)
    where
      go :
          (o : Outcome)
          → Keeps origin o (w.told ++ t ∷ []) w.sent w.writing w.reading
          → EachSound (elim o [
            | accepted l ↦ some (record w { listener = l; told = w.told ++ t ∷ [] })
            | blocked ↦ none
            | panicked ↦ some w
          ])
      go (accepted l) k = k
      go blocked k = tt
      go panicked k = h

  play-EachSound : (ms : List Metadata) (w : World) → IsSoundWorld w → EachSound (play ms w)
  unfolding play
  play-EachSound [] w h = h
  play-EachSound (m ∷ ms) w h =
      go (tell (received m) w.listener)
        (tell-Keeps origin (received m) w.listener w.told w.sent w.writing w.reading h)
    where
      go :
          (o : Outcome)
          → Keeps origin o (w.told ++ received m ∷ []) w.sent w.writing w.reading
          → EachSound (elim o [
            | accepted l ↦ some (record w {
              ops = playback ms ∷ w.ops;
              listener = l;
              told = w.told ++ received m ∷ [];
            })
            | blocked ↦ none
            | panicked ↦ some w
          ])
      go (accepted l) k = k
      go blocked k = tt
      go panicked k = h

  relay_if-EachSound : (t : Told) (w : World) → IsSoundWorld w → EachSound (relay_if t w)
  relay_if-EachSound t w h = go w.registered (relay-EachSound t w h)
    where
      go : (b : Bool) → EachSound (relay t w) → EachSound (if b then relay t w else some w)
      go true k = k
      go false k = h

  run_op-EachSound : (o : Op) (w : World) → IsSoundWorld w → EachSound (run_op o w)
  unfolding run_op
  run_op-EachSound (dispatch m) w h = go w.history
    where
      go :
          (hs : List (Option Metadata))
          → EachSound (elim hs [
            | [] ↦ some w
            | v ∷ rest ↦ relay_if (received m) (record w { history = rest ++ some m ∷ [] })
          ])
      go [] = h
      go (v ∷ rest) = relay_if-EachSound (received m) (record w { history = rest ++ some m ∷ [] }) h
  run_op-EachSound (delete mailbox id) w h = go w.history
    where
      go :
          (hs : List (Option Metadata))
          → EachSound (elim hs [
            | [] ↦ some w
            | v ∷ rest ↦
                relay_if
                  (deleted mailbox id)
                  (record w { history = clear_entry mailbox id w.history })
          ])
      go [] = h
      go (v ∷ rest) =
          relay_if-EachSound (deleted mailbox id)
            (record w { history = clear_entry mailbox id w.history }) h
  run_op-EachSound add w h = h
  run_op-EachSound (playback ms) w h = play-EachSound ms w h
  run_op-EachSound remove w h = h

  pub hub_turn-EachSound : (w : World) → IsSoundWorld w → EachSound (hub_turn w)
  unfolding hub_turn
  hub_turn-EachSound w h = go w.ops
    where
      go :
          (os : List Op)
          → EachSound (elim os [ [] ↦ none | o ∷ ops ↦ run_op o (record w { ops = ops }) ])
      go [] = tt
      go (o ∷ ops) = run_op-EachSound o (record w { ops = ops }) h
