-- ===== src/Tunnel/Participant.antt =====
-- `Participant` of src/tunnel/processor.rs, which forwards the TunnelData messages of the tunnels
-- that this router is a hop of. One iteration of the loop in `poll` is a step on the state; what
-- the channels, the timers and the clock answer in it is the step's input.
pub mod Step
pub mod Replay
pub mod Origin
mod Tests
use ire.Prelude.{
  ℕ, Bool, true, false, Option, none, some, List, [], ◌∷◌, take, drop, ltb, if◌then◌else◌, nat_eq,
  bytes_beq, Bytes,
}
use ire.Data.{xor_bytes, Hash, TunnelId}
use ire.HashMap
use ire.HashMap.{HashMap}
use ire.Bloom
use ire.Bloom.{BloomFilter, DecayingBloomFilter}
use ire.I2np.{MessagePayload, TunnelData, tunnel_data}
use ire.Tunnel.Hop.{HopData, HopConfig, inbound_gateway, intermediate, outbound_endpoint}

-- `(0..16).map(|i| td.data[i] ^ td.data[i + 16])`
unfoldable pub filter_value : Bytes → Bytes
filter_value body = xor_bytes (take 16 body) (take 16 (drop 16 body))

-- `self.ib_rx.poll()`: a message with the peer that it came from, the channel closed
-- (`Ready(None)`), nothing yet, or an error.
pub data Inbound (RI LS : Type 0) : Type 0 where
  received : Hash → MessagePayload RI LS → Inbound RI LS
  closed not_ready failed : Inbound RI LS

-- What the outside answers in one iteration: the tunnels that `new_participating_rx` yields until
-- it has no more, whether it then fails, which timers fired, the time, and the next message.
pub record Turn (RI LS C : Type 0) : Type 0 where
  pub new_tunnels : List (TunnelId × HopConfig RI C)
  pub new_tunnels_fail : Bool
  pub expire_fired : Bool
  pub now : ℕ
  pub decay_fired : Bool
  pub inbound : Inbound RI LS

-- `HopProcessorState::Processing`, with which `HopProcessor::new` starts.
pub record Processing (RI C : Type 0) : Type 0 where
  pub next_hop : RI × TunnelId
  pub td : TunnelData
  pub layer_cipher : C

-- How an iteration ends: the loop goes on after a drop or a spawn, `poll` returns after `pending`,
-- `finished` (`Ready(())`) and `error`, and `unimplemented!()` panics.
pub data Outcome (RI C : Type 0) : Type 0 where
  wrong_peer duplicate unknown_tunnel unexpected : Outcome RI C
  spawned : Processing RI C → Outcome RI C
  pending finished error panicked : Outcome RI C

abbrev pub goes_on : {RI C : Type 0} → Outcome RI C → Bool
goes_on finished = false
goes_on error = false
goes_on panicked = false
goes_on o = true

-- The state without the channels and timers. The filter's crate is the parameter `b`.
pub record Participant (b : BloomFilter) (RI C : Type 0) : Type 0 where
  pub participating : HashMap TunnelId (HopConfig RI C)
  pub filter : DecayingBloomFilter b

-- `Participant::new`
unfoldable pub new_participant : {RI C : Type 0} → (b : BloomFilter) → Participant b RI C
new_participant b = record { participating = []; filter = Bloom.new b 20000 }

-- Does the message come from the peer that the tunnel was built by?
unfoldable pub from_previous_hop : {RI : Type 0} → Hash → HopData RI → Bool
from_previous_hop from (inbound_gateway next) = true
from_previous_hop from (intermediate from_ident next) = bytes_beq from from_ident
from_previous_hop from (outbound_endpoint from_ident) = bytes_beq from from_ident

-- The last `match &config.hop_data`.
unfoldable pub dispatch : {RI C : Type 0} → HopConfig RI C → HopData RI → TunnelData → Outcome RI C
dispatch config (inbound_gateway next) td = panicked
dispatch config (intermediate from_ident next) td =
    spawned (record { next_hop = next; td = td; layer_cipher = config.layer_cipher })
dispatch config (outbound_endpoint from_ident) td = panicked

unfoldable pub add_tunnels :
    {RI C : Type 0}
    → List (TunnelId × HopConfig RI C)
    → HashMap TunnelId (HopConfig RI C)
    → HashMap TunnelId (HopConfig RI C)
add_tunnels [] m = m
add_tunnels ((tid, config) ∷ ts) m = add_tunnels ts (HashMap.insert tid config m)

-- `|_tid, config| config.expires > now`
abbrev pub is_live : {RI C : Type 0} → ℕ → TunnelId → HopConfig RI C → Bool
is_live now tid config = ltb now config.expires

unfoldable pub expire_tunnels :
    {RI C : Type 0} → ℕ → HashMap TunnelId (HopConfig RI C) → HashMap TunnelId (HopConfig RI C)
expire_tunnels now m = HashMap.retain (is_live now) m

module _ {RI C : Type 0} (b : BloomFilter) where
  -- The branch `MessagePayload::TunnelData(td)`, once the tunnel has been looked up.
  unfoldable pub handle_tunnel_data :
      Participant b RI C
      → Hash
      → TunnelData
      → Option (HopConfig RI C)
      → Participant b RI C × Outcome RI C
  unfolding from_previous_hop dispatch
  handle_tunnel_data p from td none = (p, unknown_tunnel)
  handle_tunnel_data p from td (some config) =
      let fed = Bloom.feed b p.filter (filter_value td.body) in
      if from_previous_hop from config.hop_data
      then (if fed.1
          then (record p { filter = fed.0 }, duplicate)
          else (record p { filter = fed.0 }, dispatch config config.hop_data td))
      else (p, wrong_peer)

module _ {RI LS C : Type 0} (b : BloomFilter) where
  unfoldable pub handle_payload :
      Participant b RI C → Hash → MessagePayload RI LS → Participant b RI C × Outcome RI C
  unfolding handle_tunnel_data
  handle_payload p from (tunnel_data td) =
      handle_tunnel_data b p from td (HashMap.get td.tid p.participating)
  handle_payload p from other = (p, unexpected)

  unfoldable pub handle_inbound :
      Participant b RI C → Inbound RI LS → Participant b RI C × Outcome RI C
  handle_inbound p (received from payload) = handle_payload p from payload
  handle_inbound p closed = (p, finished)
  handle_inbound p not_ready = (p, pending)
  handle_inbound p failed = (p, error)

  -- Both timers, in the order of the source.
  unfoldable pub periodic : Participant b RI C → Turn RI LS C → Participant b RI C
  periodic p t = record {
    participating =
        if t.expire_fired then expire_tunnels t.now p.participating else p.participating;
    filter = if t.decay_fired then Bloom.decay b p.filter else p.filter;
  }

  -- One iteration of the loop.
  unfoldable pub turn : Participant b RI C → Turn RI LS C → Participant b RI C × Outcome RI C
  turn p t =
      let added = record p { participating = add_tunnels t.new_tunnels p.participating } in
      if t.new_tunnels_fail then (added, error) else handle_inbound (periodic added t) t.inbound

  -- Iterations one after the other, over all calls of `poll` until the future is done.
  unfoldable pub run :
      Participant b RI C → List (Turn RI LS C) → Participant b RI C × List (Outcome RI C)
  run p [] = (p, [])
  run p (t ∷ ts) =
      let s = turn p t in
      let rest = run s.0 ts in if goes_on s.1 then (rest.0, s.1 ∷ rest.1) else (s.0, s.1 ∷ [])
