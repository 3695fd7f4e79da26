-- ===== src/Tunnel/Participant/Origin.antt =====
-- Where the tunnels come from that `Participant` (src/tunnel/processor.rs) forwards for.
use ire.Prelude.{
  ℕ, ◌≡◌, sym, ap, ◌∙◌, subst, some, List, [], ◌∷◌, All, Bool-cases, inl, inr, nat_eq, arith,
  ==_iff,
}
use ire.Tunnel.Participant.Step.{
  turn_failed_tunnels, turn-Forwarded, turn-ready, ready, add_tunnels-IsDistinct,
}
use ire.HashMap
use ire.HashMap.{
  HashMap, IsDistinct, get-insert, get-retain, keep, keep-some, retain-IsDistinct,
  insert-IsDistinct,
}
use ire.Bloom.{BloomFilter}
use ire.Data.{Hash, TunnelId}
use ire.I2np.{TunnelData}
use ire.Tunnel.Hop.{HopConfig, intermediate}
use ire.Tunnel.Participant.{
  Participant, Turn, Inbound, Outcome, Processing, spawned, handle_tunnel_data, handle_payload,
  handle_inbound, periodic, turn, run, goes_on, add_tunnels, expire_tunnels, is_live,
}

module _ {RI C : Type 0} (P : TunnelId → HopConfig RI C → Type 0) where
  -- Every tunnel of the map has the property.
  abbrev pub Everywhere : HashMap TunnelId (HopConfig RI C) → Type 0
  Everywhere m =
      (tid : TunnelId) (config : HopConfig RI C) → HashMap.get tid m ≡ some config → P tid config

  add_tunnels-Everywhere :
      (ts : List (TunnelId × HopConfig RI C)) (m : HashMap TunnelId (HopConfig RI C))
      → All (λ t. P t.0 t.1) ts
      → Everywhere m
      → Everywhere (add_tunnels ts m)
  unfolding add_tunnels
  add_tunnels-Everywhere [] m a h = h
  add_tunnels-Everywhere ((tid, config) ∷ ts) m a h =
      add_tunnels-Everywhere ts (HashMap.insert tid config m) a.1 inserted
    where
      inserted : Everywhere (HashMap.insert tid config m)
      inserted j c e = elim (Bool-cases (nat_eq.beq tid j)) [
        | inl same ↦
            let here : some config ≡ some c = sym (rw same at (get-insert tid j config m)) ∙ e in
            let tid_eq : tid ≡ j = (==_iff tid j).0 same in
            let config_eq : config ≡ c = cc in
            subst (λ (x : TunnelId). P x c) tid_eq (subst (P tid) config_eq a.0)
        | inr other ↦ h j c (sym (rw other at (get-insert tid j config m)) ∙ e)
      ]

  expire_tunnels-Everywhere :
      (now : ℕ) (m : HashMap TunnelId (HopConfig RI C))
      → IsDistinct m
      → Everywhere m
      → Everywhere (expire_tunnels now m)
  unfolding expire_tunnels
  expire_tunnels-Everywhere now m d h tid config e =
      h tid config
        (keep-some (is_live now) tid (HashMap.get tid m) config
          (sym (get-retain (is_live now) tid m d) ∙ e)).0

-- The state is well formed: one entry for a tunnel, and every entry has the property.
pub record IsValid {RI C : Type 0} (b : BloomFilter) (P : TunnelId → HopConfig RI C → Type 0)
    (p : Participant b RI C) : Type 0 where
  pub distinct : IsDistinct p.participating
  pub everywhere : Everywhere P p.participating

-- The tunnels that join in the iterations have the property.
abbrev pub Joining :
    {RI LS C : Type 0} → (TunnelId → HopConfig RI C → Type 0) → List (Turn RI LS C) → Type 0
Joining P ts = All (λ t. All (λ j. P j.0 j.1) t.new_tunnels) ts

-- What the outcome forwards is forwarded for a tunnel that has the property.
abbrev pub ForwardsFor :
    {RI C : Type 0} → (TunnelId → HopConfig RI C → Type 0) → Outcome RI C → Type 0
ForwardsFor {RI} {C} P o =
    (hp : Processing RI C)
    → o ≡ spawned hp
    → (config : HopConfig RI C) × P hp.td.tid config
      × ((from : Hash) × (config.hop_data ≡ intermediate from hp.next_hop))
      × (hp.layer_cipher ≡ config.layer_cipher)

module _ {RI LS C : Type 0} (b : BloomFilter) (P : TunnelId → HopConfig RI C → Type 0) where
  ready-IsValid :
      (p : Participant b RI C) (t : Turn RI LS C)
      → All (λ j. P j.0 j.1) t.new_tunnels
      → IsValid b P p
      → IsValid b P (ready b p t)
  unfolding ready periodic
  ready-IsValid p t joins v =
      let added = add_tunnels t.new_tunnels p.participating in
      let d = add_tunnels-IsDistinct t.new_tunnels p.participating v.distinct in
      let e = add_tunnels-Everywhere P t.new_tunnels p.participating joins v.everywhere in
      elim (Bool-cases t.expire_fired) [
        | inl fired ↦ record {
          distinct = rw fired (unfold expire_tunnels in retain-IsDistinct (is_live t.now) added d);
          everywhere = rw fired (expire_tunnels-Everywhere P t.now added d e);
        }
        | inr quiet ↦ record { distinct = rw quiet d; everywhere = rw quiet e }
      ]

  tunnels_kept :
      (q : Participant b RI C) (i : Inbound RI LS)
      → (handle_inbound b q i).0.participating ≡ q.participating
  unfolding handle_inbound handle_payload handle_tunnel_data
  tunnels_kept q i = ground arith

  turn-IsValid :
      (p : Participant b RI C) (t : Turn RI LS C)
      → All (λ j. P j.0 j.1) t.new_tunnels
      → IsValid b P p
      → IsValid b P (turn b p t).0
  turn-IsValid p t joins v = elim (Bool-cases t.new_tunnels_fail) [
    | inl fails ↦
        let kept = turn_failed_tunnels b p t fails in
        record {
          distinct =
              subst IsDistinct (sym kept)
                (add_tunnels-IsDistinct t.new_tunnels p.participating v.distinct);
          everywhere =
              subst (Everywhere P) (sym kept)
                (add_tunnels-Everywhere P t.new_tunnels p.participating joins v.everywhere);
        }
    | inr adds ↦
        let r = ready-IsValid p t joins v in
        let kept =
          ap (λ s. s.0.participating) (turn-ready b p t adds)
          ∙ tunnels_kept (ready b p t) t.inbound in
        record {
          distinct = subst IsDistinct (sym kept) r.distinct;
          everywhere = subst (Everywhere P) (sym kept) r.everywhere;
        }
  ]

  turn-ForwardsFor :
      (p : Participant b RI C) (t : Turn RI LS C)
      → All (λ j. P j.0 j.1) t.new_tunnels
      → IsValid b P p
      → ForwardsFor P (turn b p t).1
  turn-ForwardsFor p t joins v hp e =
      let f = turn-Forwarded b p t hp e in
      let holds =
        (ready-IsValid p t joins v).everywhere f.td.tid f.forwards.config f.forwards.found in
      (
        f.forwards.config,
        subst (λ (m : TunnelData). P m.tid f.forwards.config) (sym f.forwards.message_kept) holds,
        (f.from, f.forwards.previous_hop),
        f.forwards.cipher_kept,
      )

  -- Whatever holds of each tunnel at the start and of each that joins holds, over any iterations,
  -- of the tunnel for which a message is forwarded: it is forwarded for the tunnel id under which
  -- that tunnel was registered, to its next hop and with its cipher.
  pub run-ForwardsFor :
      (p : Participant b RI C) (ts : List (Turn RI LS C))
      → Joining P ts
      → IsValid b P p
      → All (ForwardsFor P) (run b p ts).1
  unfolding run
  run-ForwardsFor p [] joins v = tt
  run-ForwardsFor p (t ∷ ts) joins v =
      let first = turn-ForwardsFor p t joins.0 v in
      let rest = run-ForwardsFor (turn b p t).0 ts joins.1 (turn-IsValid p t joins.0 v) in
      elim (Bool-cases (goes_on (turn b p t).1)) [
        | inl more ↦ rw more (first, rest)
        | inr done ↦ rw done (first, tt)
      ]
