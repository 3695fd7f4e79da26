-- ===== src/Tunnel/Acceptor/Complete.antt =====
-- A request that `HopAcceptor` (src/tunnel/acceptor.rs) answers, when everything it waits for
-- is there.
use ire.Prelude.{ℕ, ◌≡◌, ◌≢◌, refl, ap, ◌∙◌, true, false, some, All, List, [], ◌∷◌, ◌==◌, Bytes}
use ire.Tunnel.Acceptor.{
  Step, AcceptorState, decrypting, resolving, registering, encrypting, Moment, continue, done, only,
  decide, decrypted, decrypt_entry, resolved, offered, step_ready, step, resume, run,
}
use ire.Tunnel.Acceptor.Wait.{answers, run_waits}
use ire.Tunnel.Acceptor.Reply.{
  IsReply, reply_byte, intermediate_config, config_for_intermediate, forward_msg-IsReply,
}
use ire.I2np.{Message, ParticipantType, BuildRequestRecord}
use ire.Tunnel.Encryption.{AesCrates, LayerCipher}
use ire.Tunnel.Hop.{HopConfig}
use ire.Tunnel.BuildRequest.{
  RequestOps, TunnelBuild, entry, entries, decrypt_record, info_for, config_for, forward_msg,
  reply_for, tunnel_accept,
}
use ire.Bloom.{BloomFilter, DecayingBloomFilter, feed}
use ire.Data.{Hash}
use ire.Tunnel.Processor.{ready, failed}
use ire.Tunnel.BuildRequest.Examine.{IsAcceptable, examine_iff}

-- Everything that a state waits for is there, and a transport takes the message.
abbrev pub ready_at : {RI : Type 0} → (Hash → RI) → ℕ → Bytes → Moment RI
ready_at found now padding = record {
  answer = ready;
  found = found;
  now = now;
  padding = padding;
  accepted = true;
}

reply_reject :
    (t : ParticipantType)
    → t ≢ ParticipantType.intermediate
    → (reply_for t == tunnel_accept) ≡ false
unfolding reply_for
reply_reject ParticipantType.intermediate h = absurd (h refl)
reply_reject ParticipantType.inbound_gateway h = refl
reply_reject ParticipantType.outbound_endpoint h = refl

rejects : (t : ParticipantType) → t ≢ ParticipantType.intermediate → reply_byte t ≡ 50
rejects ParticipantType.intermediate h = absurd (h refl)
rejects ParticipantType.inbound_gateway h = refl
rejects ParticipantType.outbound_endpoint h = refl

module _ {RI LS : Type 0} (b : BloomFilter) (a : AesCrates) (ops : RequestOps) where
  run_continue :
      (f g : DecayingBloomFilter b) (s s1 : AcceptorState RI LS (LayerCipher a)) (m : Moment RI)
      (ms : List (Moment RI))
      → step b a ops f s m ≡ only b a ops g (continue s1)
      → run b a ops f s (m ∷ ms) ≡ run b a ops g s1 ms
  unfolding run resume
  run_continue f g s s1 m ms e = rw e refl

  run_done :
      (f g : DecayingBloomFilter b) (s : AcceptorState RI LS (LayerCipher a)) (m : Moment RI)
      (ms : List (Moment RI))
      → step b a ops f s m ≡ only b a ops g done
      → run b a ops f s (m ∷ ms) ≡ only b a ops g done
  unfolding run resume
  run_done f g s m ms e = rw e refl

  module _ (f : DecayingBloomFilter b) (from : Hash) (tb : TunnelBuild) (i : ℕ) (ct : Bytes)
      (brr : BuildRequestRecord) (ours : entry i (entries tb) ≡ some ct)
      (decrypts : decrypt_record ops ct ≡ some brr) where
    step-decrypted :
        (x : Hash → RI) (now : ℕ) (padding : Bytes)
        → step {LS = LS} b a ops f (decrypting from tb i) (ready_at x now padding)
          ≡ decrypted b a ops f from tb i now (some brr)
    unfolding step decrypt_entry
    step-decrypted x now padding =
        ap (decrypt_entry b a ops f from tb i now) ours
        ∙ ap (decrypted b a ops f from tb i now) decrypts

    duplicate_done :
        (now : ℕ)
        → (feed b f brr.reply_key).1 ≡ true
        → decrypted {RI = RI} {LS = LS} b a ops f from tb i now (some brr)
          ≡ only b a ops (feed b f brr.reply_key).0 done
    unfolding decrypted
    duplicate_done now dup = rw dup refl

    fresh_resolves :
        (now : ℕ)
        → (feed b f brr.reply_key).1 ≡ false
        → IsAcceptable ops.our_hash from brr now
        → decrypted {RI = RI} {LS = LS} b a ops f from tb i now (some brr)
          ≡ only b a ops
              (feed b f brr.reply_key).0
              (continue (resolving from brr.next_ident brr tb i))
    unfolding decrypted decide
    fresh_resolves now fresh ok = rw (fresh, (examine_iff ops.our_hash from brr now).1 ok) refl

  resolved_accepts :
      (brr : BuildRequestRecord) (from : Hash) (tb : TunnelBuild) (i : ℕ) (next : RI) (now : ℕ)
      → (reply_for brr.hop_type == tunnel_accept) ≡ true
      → resolved {LS = LS} b a ops from brr tb i next now
        ≡ registering brr.receive_tid (config_for a from brr next now) (info_for brr tb i next)
  unfolding resolved info_for
  resolved_accepts brr from tb i next now e = rw e refl

  resolved_rejects :
      (brr : BuildRequestRecord) (from : Hash) (tb : TunnelBuild) (i : ℕ) (next : RI) (now : ℕ)
      → (reply_for brr.hop_type == tunnel_accept) ≡ false
      → resolved {LS = LS} b a ops from brr tb i next now ≡ encrypting (info_for brr tb i next)
  unfolding resolved info_for
  resolved_rejects brr from tb i next now e = rw e refl

  step_resolving :
      (f : DecayingBloomFilter b) (brr : BuildRequestRecord) (from : Hash) (tb : TunnelBuild)
      (i : ℕ) (key : Hash) (found : Hash → RI) (now : ℕ) (padding : Bytes)
      → step {LS = LS} b a ops f (resolving from key brr tb i) (ready_at found now padding)
        ≡ only b a ops f (continue (resolved b a ops from brr tb i (found key) now))
  unfolding step
  step_resolving f brr from tb i key found now padding = refl

  -- From the answer on: one message, to the next hop.
  answer_sent :
      (f : DecayingBloomFilter b) (brr : BuildRequestRecord) (tb : TunnelBuild) (i : ℕ) (next : RI)
      (x y : Hash → RI) (now later : ℕ) (padding pad : Bytes) (more : List (Moment RI))
      → run {LS = LS} b a ops f
          (encrypting (info_for brr tb i next))
          (ready_at x now padding ∷ ready_at y later pad ∷ more)
        ≡ record {
          filter = f;
          next = done;
          registered = [];
          handed = (next, forward_msg a ops (info_for brr tb i next) padding now) ∷ [];
        }
  unfolding run resume step step_ready offered info_for
  answer_sent f brr tb i next x y now later padding pad more = refl

  registered_then :
      (f : DecayingBloomFilter b) (tid : ℕ) (config : HopConfig RI (LayerCipher a))
      (brr : BuildRequestRecord) (tb : TunnelBuild) (i : ℕ) (next : RI) (z x y : Hash → RI)
      (soon now later : ℕ) (p padding pad : Bytes) (more : List (Moment RI))
      → run {LS = LS} b a ops f
          (registering tid config (info_for brr tb i next))
          (ready_at z soon p ∷ ready_at x now padding ∷ ready_at y later pad ∷ more)
        ≡ record {
          filter = f;
          next = done;
          registered = (tid, config) ∷ [];
          handed = (next, forward_msg a ops (info_for brr tb i next) padding now) ∷ [];
        }
  unfolding run resume step step_ready offered info_for
  registered_then f tid config brr tb i next z x y soon now later p padding pad more = refl

  module _ (f : DecayingBloomFilter b) (from : Hash) (tb : TunnelBuild) (i : ℕ) (ct : Bytes)
      (brr : BuildRequestRecord) (x found y z w : Hash → RI) (t1 t2 t3 t4 t5 : ℕ)
      (p1 p2 p3 p4 p5 : Bytes) (ours : entry i (entries tb) ≡ some ct)
      (decrypts : decrypt_record ops ct ≡ some brr) where
    to_resolving :
        (ms : List (Moment RI))
        → (feed b f brr.reply_key).1 ≡ false
        → IsAcceptable ops.our_hash from brr t1
        → run {LS = LS} b a ops f (decrypting from tb i) (ready_at x t1 p1 ∷ ms)
          ≡ run b a ops (feed b f brr.reply_key).0 (resolving from brr.next_ident brr tb i) ms
    to_resolving ms fresh ok =
        run_continue f (feed b f brr.reply_key).0 (decrypting from tb i)
          (resolving from brr.next_ident brr tb i) (ready_at x t1 p1) ms
          (step-decrypted f from tb i ct brr ours decrypts x t1 p1
            ∙ fresh_resolves f from tb i ct brr ours decrypts t1 fresh ok)

    abbrev joined :
        DecayingBloomFilter b
        → ℕ
        → RI × Message RI LS
        → HopConfig RI (LayerCipher a)
        → Step b RI LS (LayerCipher a)
    joined g tid sent config = record {
      filter = g;
      next = done;
      registered = (tid, config) ∷ [];
      handed = sent ∷ [];
    }

    module _ (ms more : List (Moment RI)) (unfailed : All (λ (m : Moment RI). m.answer ≢ failed) ms)
        (fresh : (feed b f brr.reply_key).1 ≡ false)
        (ok : IsAcceptable ops.our_hash from brr t1) where
      -- A record that is new to the filter, passes the checks and asks for an intermediate hop, over
      -- any iterations in which nothing fails and five are answered, a transport taking the message:
      -- the acceptor is done, the tunnel is registered once, under the record's tunnel id and with its
      -- keys, for ten minutes, and one message goes to what the lookup of the record's next hop
      -- yielded: the request with the sealed acceptance in place of our entry and the others sealed.
      pub intermediate_joins :
          brr.hop_type ≡ ParticipantType.intermediate
          → answers ms
            ≡ ready_at x t1 p1
              ∷ ready_at found t2 p2
              ∷ ready_at y t3 p3
              ∷ ready_at z t4 p4
              ∷ ready_at w t5 p5
              ∷ more
          → (msg : Message RI LS) × (run b a ops f (decrypting from tb i) ms ≡ record {
            filter = (feed b f brr.reply_key).0;
            next = done;
            registered =
                (brr.receive_tid, intermediate_config a from brr (found brr.next_ident) t2) ∷ [];
            handed = (found brr.next_ident, msg) ∷ [];
          })
            × IsReply a ops.sha256 brr tb i p4 t4 msg
      intermediate_joins hop answered_five =
          let g = (feed b f brr.reply_key).0 in
          let next = found brr.next_ident in
          let msg : Message RI LS = forward_msg a ops (info_for brr tb i next) p4 t4 in
          let reply_eq : (reply_for brr.hop_type == tunnel_accept) ≡ true =
            ap (λ h. reply_for h == tunnel_accept) hop ∙ unfold reply_for in refl in
          (
            msg,
            run_waits b a ops f (decrypting from tb i) ms unfailed
                ∙ ap (run b a ops f (decrypting from tb i)) answered_five
                ∙ to_resolving _ fresh ok
                ∙ run_continue g g (resolving from brr.next_ident brr tb i) _ (ready_at found t2 p2)
                    _
                    (step_resolving g brr from tb i brr.next_ident found t2 p2
                      ∙ ap (λ s. only b a ops g (continue s))
                          (resolved_accepts brr from tb i next t2 reply_eq))
                ∙ registered_then g brr.receive_tid (config_for a from brr next t2) brr tb i next y
                    z w t3 t4 t5 p3 p4 p5 more
                ∙ ap (joined g brr.receive_tid (next, msg))
                    (config_for_intermediate a from brr next t2 hop),
            forward_msg-IsReply a ops brr tb i next p4 ct t4 ours,
          )

      -- A record that is new to the filter, passes the checks and asks for another hop, over any
      -- iterations in which nothing fails and four are answered, a transport taking the message: the
      -- acceptor is done, nothing is registered, and one message goes to what the lookup of the
      -- record's next hop yielded: the request, or for the last hop its reply, with the sealed
      -- rejection in place of our entry and the others sealed.
      pub others_declined :
          brr.hop_type ≢ ParticipantType.intermediate
          → answers ms
            ≡ ready_at x t1 p1 ∷ ready_at found t2 p2 ∷ ready_at y t3 p3 ∷ ready_at z t4 p4 ∷ more
          → (msg : Message RI LS) × (run b a ops f (decrypting from tb i) ms ≡ record {
            filter = (feed b f brr.reply_key).0;
            next = done;
            registered = [];
            handed = (found brr.next_ident, msg) ∷ [];
          })
            × IsReply a ops.sha256 brr tb i p3 t3 msg
            × (reply_byte brr.hop_type ≡ 50)
      others_declined other answered_four =
          let g = (feed b f brr.reply_key).0 in
          let next = found brr.next_ident in
          (
            forward_msg a ops (info_for brr tb i next) p3 t3,
            run_waits b a ops f (decrypting from tb i) ms unfailed
                ∙ ap (run b a ops f (decrypting from tb i)) answered_four
                ∙ to_resolving _ fresh ok
                ∙ run_continue g g (resolving from brr.next_ident brr tb i) _ (ready_at found t2 p2)
                    _
                    (step_resolving g brr from tb i brr.next_ident found t2 p2
                      ∙ ap (λ s. only b a ops g (continue s))
                          (resolved_rejects brr from tb i next t2
                            (reply_reject brr.hop_type other)))
                ∙ answer_sent g brr tb i next y z t3 t4 p3 p4 more,
            forward_msg-IsReply a ops brr tb i next p3 ct t3 ours,
            rejects brr.hop_type other,
          )
