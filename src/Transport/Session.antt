-- ===== src/Transport/Session.antt =====
-- The session state of src/transport/session.rs, which both transports share: for each peer the
-- channel of its session, or the frames that wait for one. A channel is a number; whether its
-- receiver is still there is an input, and what is put into it is an output.
pub mod Channel
pub mod Delivery
pub mod Disjoint
pub mod Order
pub mod Stale
mod Tests
use ire.Prelude.{
  ℕ, Bool, true, false, Option, none, some, List, [], ◌∷◌, ◌++◌, map, if◌then◌else◌, bytes_eq,
}
use ire.HashMap
use ire.HashMap.{HashMap}
use ire.Data.{Hash}

pub record Shared (F : Type 0) : Type 0 where
  pub sessions : HashMap Hash ℕ
  pub pending_sessions : HashMap Hash (List F)

unfoldable pub new : {F : Type 0} → Shared F
new = record { sessions = []; pending_sessions = [] }

-- What an operation does: the state after it, whether a send was taken (`Ok(Ready)`) or refused
-- (`SendError`), whether `connect_to_peer` was called, and what was put into which channel.
pub record Done (F : Type 0) : Type 0 where
  pub after : Shared F
  pub taken : Bool
  pub connects : Bool
  pub delivered : List (ℕ × F)

module _ {F : Type 0} where
  -- `SessionState::contains`
  unfoldable pub contains : Shared F → Hash → Bool
  contains s hash = HashMap.contains_key hash s.sessions

  -- `session.start_send(frame)` on an unbounded channel: refused only when the receiver has gone.
  unfoldable pub start_send : Shared F → Bool → ℕ → F → Done F
  start_send s alive tx frame =
      if alive
      then record { after = s; taken = true; connects = false; delivered = (tx, frame) ∷ [] }
      else record { after = s; taken = false; connects = false; delivered = [] }

  -- `entry(hash).or_insert_with(connect).push(frame)`
  unfoldable pub cache : Shared F → Hash → F → Option (List F) → Done F
  cache s hash frame none = record {
    after = record s { pending_sessions = HashMap.insert hash (frame ∷ []) s.pending_sessions };
    taken = true;
    connects = true;
    delivered = [];
  }
  cache s hash frame (some frames) = record {
    after = record s {
      pending_sessions = HashMap.insert hash (frames ++ frame ∷ []) s.pending_sessions;
    };
    taken = true;
    connects = false;
    delivered = [];
  }

  unfoldable pub send_by : Shared F → Bool → Hash → F → Option ℕ → Done F
  unfolding start_send cache
  send_by s alive hash frame (some tx) = start_send s alive tx frame
  send_by s alive hash frame none = cache s hash frame (HashMap.get hash s.pending_sessions)

  -- `SessionState::send`; `alive` is whether the session's receiver is still there.
  unfoldable pub send : Shared F → Bool → Hash → F → Done F
  unfolding send_by
  send s alive hash frame = send_by s alive hash frame (HashMap.get hash s.sessions)

  -- `tx.unbounded_send(msg).unwrap()` for each message; `none` is the panic.
  unfoldable pub flush : Bool → ℕ → List F → Option (List (ℕ × F))
  flush alive tx [] = some []
  flush alive tx (msg ∷ msgs) = if alive then some (map (λ m. (tx, m)) (msg ∷ msgs)) else none

  -- The frames that wait for a session with the peer.
  unfoldable pub waiting_of : Option (List F) → List F
  waiting_of none = []
  waiting_of (some msgs) = msgs

  abbrev pub waiting : Hash → Shared F → List F
  waiting hash s = waiting_of (HashMap.get hash s.pending_sessions)

  -- The rest of `SessionContext::new`, once the frames are in the channel.
  unfoldable pub established : Shared F → Hash → ℕ → Option (List (ℕ × F)) → Option (Done F)
  established s hash tx none = none
  established s hash tx (some sent) = some (record {
    after = record {
      sessions = HashMap.insert hash tx s.sessions;
      pending_sessions = HashMap.remove hash s.pending_sessions;
    };
    taken = true;
    connects = false;
    delivered = sent;
  })

  -- `SessionContext::new`
  unfoldable pub open_session : Shared F → Bool → Hash → ℕ → Option (Done F)
  unfolding established
  open_session s alive hash tx = established s hash tx (flush alive tx (waiting hash s))

  -- `Drop` of a SessionContext.
  unfoldable pub drop_session : Shared F → Hash → Shared F
  drop_session s hash = record s { sessions = HashMap.remove hash s.sessions }

-- What happens to the shared state.
pub data Event (F : Type 0) : Type 0 where
  sends : Hash → Bool → F → Event F
  opens : Hash → Bool → ℕ → Event F
  ends : Hash → Event F

module _ {F : Type 0} where
  unfoldable pub step : Shared F → Event F → Option (Done F)
  unfolding send open_session drop_session
  step s (sends hash alive frame) = some (send s alive hash frame)
  step s (opens hash alive tx) = open_session s alive hash tx
  step s (ends hash) =
      some (record { after = drop_session s hash; taken = true; connects = false; delivered = [] })

-- An event with what it did.
abbrev pub Log : Type 0 → Type 0
Log F = List (Event F × Done F)

module _ {F : Type 0} where
  unfoldable pub log_with : Event F → Done F → Option (Log F) → Option (Log F)
  log_with e d none = none
  log_with e d (some l) = some ((e, d) ∷ l)

  unfoldable pub resume : (Shared F → Option (Log F)) → Event F → Option (Done F) → Option (Log F)
  unfolding log_with
  resume k e none = none
  resume k e (some d) = log_with e d (k d.after)

  -- The events in order, `none` if one of them panics.
  unfoldable pub run : Shared F → List (Event F) → Option (Log F)
  unfolding resume
  run s [] = some []
  run s (e ∷ es) = resume (λ s'. run s' es) e (step s e)

  -- The state at the end of a log that starts with `s`.
  unfoldable pub final : Shared F → Log F → Shared F
  final s [] = s
  final s ((e, d) ∷ l) = final d.after l
