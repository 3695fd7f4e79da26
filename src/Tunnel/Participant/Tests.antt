-- ===== src/Tunnel/Participant/Tests.antt =====
-- Runs of `Participant` with an exact filter, and the theorems at concrete inputs. RouterInfo,
-- LeaseSet and LayerCipher are numbers here.
use ire.Prelude.{
  ℕ, ◌<◌, ◌≡◌, ◌↔◌, refl, Bool, true, false, some, [], ◌∷◌, All, nat_eq, arith, replicate,
}
use ire.Data.{xor_bytes, TunnelId}
use ire.HashMap
use ire.Bloom
use ire.Bloom.Exact.{exact}
use ire.I2np.{TunnelData, tunnel_data}
use ire.Tunnel.Hop.{HopConfig, intermediate}
use ire.Tunnel.Participant.{
  Participant, Turn, Processing, spawned, duplicate, wrong_peer, unknown_tunnel, received,
  filter_value, turn, run, add_tunnels, handle_inbound, handle_payload, periodic, expire_tunnels,
}
use ire.Tunnel.Participant.Step.{Forwarded, turn_spawned_iff, expired_forwards_nothing}
use ire.Tunnel.Participant.Replay.{NoForwardOf, no_replay}
use ire.Tunnel.Participant.Origin.{ForwardsFor, run-ForwardsFor}

abbrev hop : HopConfig ℕ ℕ
hop = record { hop_data = intermediate (1 ∷ []) (55, 9); layer_cipher = 3; expires = 100 }

abbrev start : Participant exact ℕ ℕ
start = record {
  participating = (7, hop) ∷ [];
  filter = record { current = []; previous = []; max_elements = 20000 };
}

abbrev packet : TunnelData
packet = record { tid = 7; body = replicate 32 5 }

abbrev packet_turn : ℕ → ℕ → Bool → Turn ℕ ℕ ℕ
packet_turn peer now decays = record {
  new_tunnels = [];
  new_tunnels_fail = false;
  expire_fired = true;
  now = now;
  decay_fired = decays;
  inbound = received (peer ∷ []) (tunnel_data packet);
}

abbrev forwarded : Processing ℕ ℕ
forwarded = record { next_hop = (55, 9); td = packet; layer_cipher = 3 }

first_forwards : (turn exact start (packet_turn 1 50 false)).1 ≡ spawned forwarded
unfolding turn periodic handle_inbound handle_payload add_tunnels expire_tunnels HashMap.get
    HashMap.retain Bloom.feed filter_value xor_bytes
first_forwards = refl

-- The same packet again, then from another peer, then after its tunnel has expired.
one_of_four :
    (run exact start (
      packet_turn 1 50 false
      ∷ packet_turn 1 50 true
      ∷ packet_turn 2 60 false
      ∷ packet_turn 1 100 false
      ∷ [])).1
    ≡ spawned forwarded ∷ duplicate ∷ wrong_peer ∷ unknown_tunnel ∷ []
unfolding run turn periodic handle_inbound handle_payload add_tunnels expire_tunnels HashMap.get
    HashMap.retain Bloom.feed Bloom.decay filter_value xor_bytes
one_of_four = refl

turn_spawned_iff_example :
    ((turn exact start (packet_turn 1 50 false)).1 ≡ spawned forwarded)
    ↔ Forwarded exact start (packet_turn 1 50 false) forwarded
turn_spawned_iff_example = turn_spawned_iff exact start (packet_turn 1 50 false) forwarded

expired_forwards_nothing_example :
    (config : HopConfig ℕ ℕ) × (HashMap.get 7 (add_tunnels [] ((7, hop) ∷ [])) ≡ some config)
    × (◌≡◌ {A = ℕ} 3 config.layer_cipher)
    × (50 < config.expires)
unfolding HashMap.get
expired_forwards_nothing_example =
    expired_forwards_nothing exact start (packet_turn 1 50 false) forwarded (refl, tt) refl
      first_forwards

no_replay_example :
    All
      (NoForwardOf (filter_value (replicate 32 5)))
      (run exact
        (turn exact start (packet_turn 1 50 false)).0
        (packet_turn 1 60 true ∷ packet_turn 1 70 false ∷ [])).1
no_replay_example =
    no_replay exact start (packet_turn 1 50 false)
      (packet_turn 1 60 true ∷ packet_turn 1 70 false ∷ []) forwarded first_forwards (omega arith)

-- Tunnel 7 is the only one.
abbrev IsSeven : TunnelId → HopConfig ℕ ℕ → Type 0
IsSeven tid config = tid ≡ 7

start_is_seven :
    (tid : TunnelId) (config : HopConfig ℕ ℕ)
    → HashMap.get tid start.participating ≡ some config
    → tid ≡ 7
unfolding HashMap.get
start_is_seven tid config e = ground arith

run-ForwardsFor_example :
    All (ForwardsFor IsSeven) (run exact start (packet_turn 1 50 false ∷ [])).1
unfolding HashMap.get
run-ForwardsFor_example =
    run-ForwardsFor exact IsSeven start (packet_turn 1 50 false ∷ []) (tt, tt)
      (record { distinct = (refl, tt); everywhere = start_is_seven })
