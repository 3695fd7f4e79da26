-- ===== src/Tunnel/Processor/Sent.antt =====
-- What `HopProcessor` (src/tunnel/processor.rs) hands to the transports.
use ire.Tunnel.Encryption.{encrypt_layer}
use ire.Prelude.{ap, ◌∙◌}
use ire.Prelude.{
  subst, ℕ, ◌+◌, ◌≡◌, refl, sym, Option, some, List, [], ◌∷◌, length, Bool, true, false,
}
use ire.Tunnel.Processor.{
  resume, offer, Moment, HopState, Next, Answer, processing, sending, continue, stay, done, error,
  ready, not_ready, failed, hand_over, step, step_processing, step_sending, run,
}
use ire.Data.{TunnelId}
use ire.I2np.{Message, TunnelData, message, tunnel_data}
use ire.Tunnel.Encryption.{AesCrates, LayerCipher, decrypt_layer}
use ire.Tunnel.Encryption.RoundTrip.{layers_undo}
use ire.Tunnel.Participant.{Processing}

module _ {RI LS : Type 0} (a : AesCrates) (hp : Processing RI (LayerCipher a)) where
  -- The state is the one that the processor began with, or the message has been handed over: to the
  -- next hop, under the next hop's tunnel id, with a body of 1024 bytes that the hop's own layer
  -- decrypts to the body received.
  pub data Follows : HopState RI LS (LayerCipher a) → Type 0 where
    waiting : Follows (processing hp)
    handed :
        (i e : ℕ) (td : TunnelData)
        → td.tid ≡ hp.next_hop.1
        → length td.body ≡ 1024
        → decrypt_layer a hp.layer_cipher (record td { tid = hp.td.tid }) ≡ some hp.td
        → Follows (sending hp.next_hop.0 (message i e (tunnel_data td)))

  -- Where a run may end.
  pub data Ends : Next RI LS (LayerCipher a) → Type 0 where
    goes_on : {s : HopState RI LS (LayerCipher a)} → Follows s → Ends (continue s)
    waits : {s : HopState RI LS (LayerCipher a)} → Follows s → Ends (stay s)
    sent : Ends done
    fails : Ends error

  module _ (whole : length hp.td.body ≡ 1024) where
    offer-Ends :
        (taken : Bool) (i e : ℕ) (td : TunnelData)
        → td.tid ≡ hp.next_hop.1
        → length td.body ≡ 1024
        → decrypt_layer a hp.layer_cipher (record td { tid = hp.td.tid }) ≡ some hp.td
        → Ends (offer a taken hp.next_hop.0 (message i e (tunnel_data td)))
    unfolding offer
    offer-Ends true i e td t l d = goes_on (handed i e td t l d)
    offer-Ends false i e td t l d = fails

    hand_over-Ends :
        (m : Moment) (td : TunnelData)
        → td.tid ≡ hp.td.tid
        → length td.body ≡ 1024
        → decrypt_layer a hp.layer_cipher td ≡ some hp.td
        → Ends (hand_over a m hp.next_hop (some td))
    unfolding hand_over
    hand_over-Ends m td t l d =
        offer-Ends m.accepted m.msg_id (m.now + 60000) (record td { tid = hp.next_hop.1 }) refl l
          (subst
            (λ (x : TunnelId).
              decrypt_layer a hp.layer_cipher (record { tid = x; body = td.body }) ≡ some hp.td)
            t d)

    processing-Ends : (m : Moment) (w : Answer) → Ends (step_processing a hp m w)
    unfolding step_processing
    processing-Ends m ready =
        let (enc, e, t, l, d) = (layers_undo a hp.layer_cipher hp.td whole).0 in
        subst (λ (o : Option TunnelData). Ends (hand_over a m hp.next_hop o)) (sym e)
          (hand_over-Ends m enc t l d)
    processing-Ends m not_ready = waits waiting
    processing-Ends m failed = fails

    sending-Ends :
        (w : Answer) {ri : RI} {msg : Message RI LS}
        → Follows (sending ri msg)
        → Ends (step_sending a ri msg w)
    unfolding step_sending
    sending-Ends ready f = sent
    sending-Ends not_ready f = waits f
    sending-Ends failed f = fails

    step-Ends : (s : HopState RI LS (LayerCipher a)) (m : Moment) → Follows s → Ends (step a s m)
    unfolding step
    step-Ends (processing hp') m waiting = processing-Ends m m.answer
    step-Ends (sending ri msg) m f = sending-Ends m.answer f

    resume-Ends :
        (k : HopState RI LS (LayerCipher a) → Next RI LS (LayerCipher a))
        → ((s : HopState RI LS (LayerCipher a)) → Follows s → Ends (k s))
        → {n : Next RI LS (LayerCipher a)} → Ends n
        → Ends (resume a k n)
    unfolding resume
    resume-Ends k h (goes_on g) = h _ g
    resume-Ends k h (waits g) = h _ g
    resume-Ends k h sent = sent
    resume-Ends k h fails = fails

    -- However the pool, the transports and the clock answer, the processor of a message of 1024
    -- bytes never panics, and in every state that it reaches it still holds the message as it came
    -- or has handed over one message: to the next hop, under the next hop's tunnel id, whose body
    -- the hop's own layer decrypts to the body received.
    pub run-Ends :
        (s : HopState RI LS (LayerCipher a)) (ms : List Moment) → Follows s → Ends (run a s ms)
    unfolding run
    run-Ends s [] f = waits f
    run-Ends s (m ∷ ms) f =
        resume-Ends (λ s'. run a s' ms) (λ s' g. run-Ends s' ms g) (step-Ends s m f)

-- A run that succeeds, with the message that was handed over.
pub record Delivers {RI : Type 0} (LS : Type 0) (a : AesCrates) (hp : Processing RI (LayerCipher a))
    (m n : Moment) : Type 0 where
  pub td : TunnelData
  pub tid : td.tid ≡ hp.next_hop.1
  pub decrypts : decrypt_layer a hp.layer_cipher (record td { tid = hp.td.tid }) ≡ some hp.td
  pub hands :
      step {LS = LS} a (processing hp) m
      ≡ continue (sending hp.next_hop.0 (message m.msg_id (m.now + 60000) (tunnel_data td)))
  pub ends : run {LS = LS} a (processing hp) (m ∷ n ∷ []) ≡ done

module _ {RI : Type 0} (LS : Type 0) (a : AesCrates) (hp : Processing RI (LayerCipher a)) where
  handed_over :
      (m : Moment) (enc : TunnelData)
      → m.answer ≡ ready
      → m.accepted ≡ true
      → encrypt_layer a hp.layer_cipher hp.td ≡ some enc
      → step {LS = LS} a (processing hp) m
        ≡ continue (
            sending hp.next_hop.0
              (message m.msg_id (m.now + 60000) (tunnel_data (record enc { tid = hp.next_hop.1 }))))
  unfolding step step_processing hand_over offer
  handed_over m enc is_ready taken e =
      ap (step_processing a hp m) is_ready
      ∙ ap (hand_over a m hp.next_hop) e
      ∙ ap
          (λ t.
            offer a t hp.next_hop.0
              (message m.msg_id (m.now + 60000) (tunnel_data (record enc { tid = hp.next_hop.1 }))))
          taken

  finishes :
      (m n : Moment) (ri : RI) (msg : Message RI LS)
      → n.answer ≡ ready
      → step {LS = LS} a (processing hp) m ≡ continue (sending ri msg)
      → run {LS = LS} a (processing hp) (m ∷ n ∷ []) ≡ done
  unfolding run resume step_sending step
  finishes m n ri msg is_ready handed_eq =
      ap (resume a (λ s. resume a (λ t. stay t) (step a s n))) handed_eq
      ∙ ap (λ w. resume a (λ t. stay t) (step_sending a ri msg w)) is_ready

  -- When the pool is ready and a transport takes the message, and its future is then ready, the
  -- processor of a message of 1024 bytes is done after these two iterations, having handed over one
  -- message: to the next hop, under the next hop's tunnel id, whose body the hop's own layer
  -- decrypts to the body received.
  pub run-Delivers :
      (m n : Moment)
      → length hp.td.body ≡ 1024
      → m.answer ≡ ready
      → m.accepted ≡ true
      → n.answer ≡ ready
      → Delivers LS a hp m n
  run-Delivers m n whole is_ready taken then_ready =
      let (enc, e, t, l, d) = (layers_undo a hp.layer_cipher hp.td whole).0 in
      let handed_eq = handed_over m enc is_ready taken e in
      record {
        td = record enc { tid = hp.next_hop.1 };
        tid = refl;
        decrypts =
            subst
              (λ (x : TunnelId).
                decrypt_layer a hp.layer_cipher (record { tid = x; body = enc.body }) ≡ some hp.td)
              t d;
        hands = handed_eq;
        ends = finishes m n _ _ then_ready handed_eq;
      }
