-- ===== src/Tunnel/Participant/Step.antt =====
-- When one iteration of `Participant::poll` (src/tunnel/processor.rs) forwards a message.
use ire.Prelude.{
  ◌<◌, ◌≡◌, sym, ◌∙◌, ltb→lt, subst, ap, List, [], ◌∷◌, ◌↔◌, refl, true, false, Option, none, some,
  arith, bytes_beq_iff, nat_eq,
}
use ire.HashMap
use ire.HashMap.{HashMap, keep-some, IsDistinct, get-retain, retain-IsDistinct, insert-IsDistinct}
use ire.Bloom
use ire.Bloom.{BloomFilter}
use ire.Data.{Hash, TunnelId}
use ire.I2np.{MessagePayload, TunnelData, tunnel_data}
use ire.Tunnel.Hop.{HopData, HopConfig, inbound_gateway, intermediate, outbound_endpoint}
use ire.Tunnel.Participant.{
  error, Participant, Turn, Inbound, Processing, spawned, received, closed, not_ready, failed,
  filter_value, handle_tunnel_data, handle_payload, handle_inbound, periodic, turn, add_tunnels,
  expire_tunnels, is_live,
}

pub add_tunnels-IsDistinct :
    {RI C : Type 0} (ts : List (TunnelId × HopConfig RI C)) (m : HashMap TunnelId (HopConfig RI C))
    → IsDistinct m
    → IsDistinct (add_tunnels ts m)
unfolding add_tunnels
add_tunnels-IsDistinct [] m d = d
add_tunnels-IsDistinct ((tid, config) ∷ ts) m d =
    add_tunnels-IsDistinct ts (HashMap.insert tid config m) (insert-IsDistinct tid config m d)

module _ {RI C : Type 0} (b : BloomFilter) where
  -- `hp` is what the tunnel's hop asks for: `config` is found for the message's tunnel, it is an
  -- intermediate hop whose previous peer is the sender, and the filter has not seen the message.
  pub record Forwards (q : Participant b RI C) (from : Hash) (td : TunnelData)
      (o : Option (HopConfig RI C)) (hp : Processing RI C) : Type 0 where
    pub config : HopConfig RI C
    pub found : o ≡ some config
    pub previous_hop : config.hop_data ≡ intermediate from hp.next_hop
    pub message_kept : hp.td ≡ td
    pub cipher_kept : hp.layer_cipher ≡ config.layer_cipher
    pub not_seen : (Bloom.feed b q.filter (filter_value td.body)).1 ≡ false

  spawned_hop :
      (q : Participant b RI C) (from : Hash) (td : TunnelData) (config : HopConfig RI C)
      (hd : HopData RI) (hp : Processing RI C)
      → config.hop_data ≡ hd
      → (handle_tunnel_data b q from td (some config)).1 ≡ spawned hp
      → Forwards q from td (some config) hp
  unfolding handle_tunnel_data
  spawned_hop q from td config (inbound_gateway next) hp e h = absurd (ground arith)
  spawned_hop q from td config (intermediate from_ident next) hp e h = record {
    config = config;
    found = refl;
    previous_hop = ground (arith, bytes_beq_iff from from_ident);
    message_kept = ground arith;
    cipher_kept = ground arith;
    not_seen = ground arith;
  }
  spawned_hop q from td config (outbound_endpoint from_ident) hp e h = absurd (ground arith)

  pub handle_tunnel_data-Forwards :
      (q : Participant b RI C) (from : Hash) (td : TunnelData) (o : Option (HopConfig RI C))
      (hp : Processing RI C)
      → (handle_tunnel_data b q from td o).1 ≡ spawned hp
      → Forwards q from td o hp
  handle_tunnel_data-Forwards q from td none hp h = unfold handle_tunnel_data in cc
  handle_tunnel_data-Forwards q from td (some config) hp h =
      spawned_hop q from td config config.hop_data hp refl h

  pub Forwards-spawned :
      (q : Participant b RI C) (from : Hash) (td : TunnelData) (o : Option (HopConfig RI C))
      (hp : Processing RI C)
      → Forwards q from td o hp
      → (handle_tunnel_data b q from td o).1 ≡ spawned hp
  unfolding handle_tunnel_data
  Forwards-spawned q from td o hp f =
      rw (f.found, f.previous_hop)
        (ground (
          arith,
          f.message_kept,
          f.cipher_kept,
          f.not_seen,
          f.previous_hop,
          bytes_beq_iff from from,
        ))

  pub Forwards-filter :
      (q : Participant b RI C) (from : Hash) (td : TunnelData) (o : Option (HopConfig RI C))
      (hp : Processing RI C)
      → Forwards q from td o hp
      → (handle_tunnel_data b q from td o).0.filter
        ≡ (Bloom.feed b q.filter (filter_value td.body)).0
  unfolding handle_tunnel_data
  Forwards-filter q from td o hp f =
      rw (f.found, f.previous_hop)
        (ground (arith, f.not_seen, f.previous_hop, bytes_beq_iff from from))

module _ {RI LS C : Type 0} (b : BloomFilter) where
  -- The state in which the message of an iteration is handled: the new tunnels are added, and the
  -- timers that fired have done their work.
  unfoldable pub ready : Participant b RI C → Turn RI LS C → Participant b RI C
  ready p t = periodic b (record p { participating = add_tunnels t.new_tunnels p.participating }) t

  pub record Forwarded (p : Participant b RI C) (t : Turn RI LS C) (hp : Processing RI C)
      : Type 0 where
    pub from : Hash
    pub td : TunnelData
    pub added : t.new_tunnels_fail ≡ false
    pub inbound : t.inbound ≡ received from (tunnel_data td)
    pub forwards : Forwards b (ready p t) from td (HashMap.get td.tid (ready p t).participating) hp

  payload_spawned :
      (q : Participant b RI C) (from : Hash) (m : MessagePayload RI LS) (hp : Processing RI C)
      → (handle_payload b q from m).1 ≡ spawned hp
      → (td : TunnelData) × (m ≡ tunnel_data td)
        × Forwards b q from td (HashMap.get td.tid q.participating) hp
  unfolding handle_payload
  payload_spawned q from (tunnel_data td) hp h =
      (td, refl, handle_tunnel_data-Forwards b q from td _ hp h)
  payload_spawned q from _ hp h = cc

  inbound_spawned :
      (q : Participant b RI C) (i : Inbound RI LS) (hp : Processing RI C)
      → (handle_inbound b q i).1 ≡ spawned hp
      → (from : Hash) × (td : TunnelData) × (i ≡ received from (tunnel_data td))
        × Forwards b q from td (HashMap.get td.tid q.participating) hp
  unfolding handle_inbound
  inbound_spawned q (received from m) hp h =
      let s = payload_spawned q from m hp h in (from, s.0, ap (received from) s.1, s.2)
  inbound_spawned q closed hp h = cc
  inbound_spawned q not_ready hp h = cc
  inbound_spawned q failed hp h = cc

  pub turn-ready :
      (p : Participant b RI C) (t : Turn RI LS C)
      → t.new_tunnels_fail ≡ false
      → turn b p t ≡ handle_inbound b (ready p t) t.inbound
  unfolding turn ready
  turn-ready p t e = rw e

  -- If the channel of new tunnels fails, `poll` returns its error and handles no message.
  pub turn_failed :
      (p : Participant b RI C) (t : Turn RI LS C)
      → t.new_tunnels_fail ≡ true
      → ((turn b p t).0.filter ≡ p.filter) × ((turn b p t).1 ≡ error)
  unfolding turn
  turn_failed p t e = rw e (refl, refl)

  pub turn_failed_tunnels :
      (p : Participant b RI C) (t : Turn RI LS C)
      → t.new_tunnels_fail ≡ true
      → (turn b p t).0.participating ≡ add_tunnels t.new_tunnels p.participating
  unfolding turn
  turn_failed_tunnels p t e = rw e

  turn_spawned_adds :
      (p : Participant b RI C) (t : Turn RI LS C) (hp : Processing RI C)
      → (turn b p t).1 ≡ spawned hp
      → t.new_tunnels_fail ≡ false
  unfolding turn
  turn_spawned_adds p t hp h = ground arith

  pub turn-Forwarded :
      (p : Participant b RI C) (t : Turn RI LS C) (hp : Processing RI C)
      → (turn b p t).1 ≡ spawned hp
      → Forwarded p t hp
  turn-Forwarded p t hp h =
      let added = turn_spawned_adds p t hp h in
      let s = inbound_spawned (ready p t) t.inbound hp (rw (turn-ready p t added) at h) in
      record { from = s.0; td = s.1; added = added; inbound = s.2; forwards = s.3 }

  handle_inbound_tunnel_data :
      (q : Participant b RI C) (i : Inbound RI LS) (from : Hash) (td : TunnelData)
      → i ≡ received from (tunnel_data td)
      → handle_inbound b q i ≡ handle_tunnel_data b q from td (HashMap.get td.tid q.participating)
  unfolding handle_inbound handle_payload
  handle_inbound_tunnel_data q i from td e = rw e

  pub Forwarded-filter :
      (p : Participant b RI C) (t : Turn RI LS C) (hp : Processing RI C) (f : Forwarded p t hp)
      → (turn b p t).0.filter ≡ (Bloom.feed b (ready p t).filter (filter_value f.td.body)).0
  Forwarded-filter p t hp f =
      let q = ready p t in
      ap (λ s. s.0.filter)
        (turn-ready p t f.added ∙ handle_inbound_tunnel_data q t.inbound f.from f.td f.inbound)
      ∙ Forwards-filter b q f.from f.td _ hp f.forwards

  turn_ready_spawned :
      (p : Participant b RI C) (t : Turn RI LS C) (hp : Processing RI C)
      → Forwarded p t hp
      → (turn b p t).1 ≡ spawned hp
  turn_ready_spawned p t hp f =
      let q = ready p t in
      ap (λ s. s.1)
        (turn-ready p t f.added ∙ handle_inbound_tunnel_data q t.inbound f.from f.td f.inbound)
      ∙ Forwards-spawned b q f.from f.td _ hp f.forwards

  -- An iteration spawns a hop processor exactly when the message received is TunnelData for a known
  -- tunnel in which this router is an intermediate hop, it comes from the tunnel's previous hop,
  -- and the duplicate filter takes it as new; the processor has the tunnel's next hop and cipher.
  pub turn_spawned_iff :
      (p : Participant b RI C) (t : Turn RI LS C) (hp : Processing RI C)
      → ((turn b p t).1 ≡ spawned hp) ↔ Forwarded p t hp
  turn_spawned_iff p t hp = (turn-Forwarded p t hp, λ f. turn_ready_spawned p t hp f)

  -- The map of tunnels after an iteration whose expiry timer fired: what was added before, less
  -- the tunnels that have expired.
  ready-get :
      (p : Participant b RI C) (t : Turn RI LS C) (tid : TunnelId)
      → IsDistinct (add_tunnels t.new_tunnels p.participating)
      → t.expire_fired ≡ true
      → HashMap.get tid (ready p t).participating
        ≡ HashMap.keep
            (is_live t.now)
            tid
            (HashMap.get tid (add_tunnels t.new_tunnels p.participating))
  unfolding ready periodic expire_tunnels
  ready-get p t tid d e = rw e (get-retain _ tid _ d)

  -- In an iteration whose expiry timer fired, no tunnel that has expired forwards anything.
  pub expired_forwards_nothing :
      (p : Participant b RI C) (t : Turn RI LS C) (hp : Processing RI C)
      → IsDistinct p.participating
      → t.expire_fired ≡ true
      → (turn b p t).1 ≡ spawned hp
      → (config : HopConfig RI C) × (HashMap.get hp.td.tid
            (add_tunnels t.new_tunnels p.participating)
          ≡ some config)
        × (hp.layer_cipher ≡ config.layer_cipher)
        × (t.now < config.expires)
  expired_forwards_nothing p t hp d e h =
      let f = turn-Forwarded p t hp h in
      let kept = ready-get p t f.td.tid (add_tunnels-IsDistinct t.new_tunnels _ d) e in
      let added = add_tunnels t.new_tunnels p.participating in
      let kept_some =
        keep-some (is_live t.now) f.td.tid (HashMap.get f.td.tid added) f.forwards.config
          (sym kept ∙ f.forwards.found) in
      (
        f.forwards.config,
        subst (λ (m : TunnelData). HashMap.get m.tid added ≡ some f.forwards.config)
            (sym f.forwards.message_kept) kept_some.0,
        f.forwards.cipher_kept,
        ltb→lt _ _ kept_some.1,
      )
