-- ===== src/Wire.antt =====
-- What both sessions promise about outgoing messages: a queue that is written to the peer one
-- message at a time. It is the specification; the code of the sessions is in Ws and Http.
pub mod Laws
pub mod Stuck
use sample.Base.{Bool, true, false, List, [], ◌∷◌, ◌++◌, ◌∷ʳ◌, ◌≡◌, if◌then◌else◌, not, ◌&&◌, tail}

-- `live`: the handshake is done. `busy`: a write has been started and has not succeeded.
-- `in_flight`: the writes that the transport has accepted and not yet completed.
-- `sent`: all that was submitted, oldest first. `written`: all that the peer was sent.
pub record Wire (A : Type 0) : Type 0 where
  pub live : Bool
  pub busy : Bool
  pub queue : List A
  pub in_flight : List A
  pub sent : List A
  pub written : List A

module _ {A : Type 0} where
  abbrev pub start_next : Wire A → List A → Wire A
  start_next w [] = w
  start_next w (m ∷ ms) = record w { busy = true; in_flight = w.in_flight ∷ʳ m }

  -- Starts a write, if one may start.
  unfoldable pub pump : Wire A → Wire A
  pump w = if w.live && not w.busy then start_next w w.queue else w

  pub data Step (w : Wire A) : Wire A → Type 0 where
    submit : (m : A) → Step w (pump (record w { queue = w.queue ∷ʳ m; sent = w.sent ∷ʳ m }))
    open_up : Step w (pump (record w { live = true }))
    -- The write of `m` has succeeded.
    ack :
        (before : List A) (m : A) (after : List A)
        → w.in_flight ≡ before ++ m ∷ after
        → Step w (
            pump (record w {
              busy = false;
              queue = tail w.queue;
              in_flight = before ++ after;
              written = w.written ∷ʳ m;
            }))
    -- The write of `m` has failed.
    lose :
        (before : List A) (m : A) (after : List A)
        → w.in_flight ≡ before ++ m ∷ after
        → Step w (record w { in_flight = before ++ after })
    idle : Step w w

  abbrev pub fresh : Wire A
  fresh = record { live = false; busy = false; queue = []; in_flight = []; sent = []; written = [] }

  pub data Reach : Wire A → Type 0 where
    start : Reach fresh
    later : {w v : Wire A} → Reach w → Step w v → Reach v
