-- ===== src/Tunnel/Acceptor/Decision.antt =====
-- What `HopAcceptor` (src/tunnel/acceptor.rs) registers and hands over.
use ire.Prelude.{
  ℕ, ◌≡◌, refl, Bool, true, false, Option, none, some, List, [], ◌∷◌, ◌++◌, All, ◌==◌, Bytes,
  Bool-cases, inl, inr,
}
use ire.Bloom.{BloomFilter, DecayingBloomFilter, feed}
use ire.Data.{Hash}
use ire.I2np.{ParticipantType, BuildRequestRecord, Message}
use ire.Tunnel.Encryption.{AesCrates, LayerCipher}
use ire.Tunnel.Processor.{Answer, ready, not_ready, failed}
use ire.Tunnel.BuildRequest.{
  RequestOps, TunnelBuild, Verdict, proceed, next_is_us, same_peers, too_old, too_new, entry,
  entries, decrypt_record, examine, info_for, forward_msg, reply_for, tunnel_accept,
}
use ire.Tunnel.BuildRequest.Examine.{examine_iff}
use ire.Tunnel.Acceptor.Reached.{
  IsGranted, IsRegistered, Reached, begun, granted, accepted, decided, forwards, IsAnswer,
  ReachedNext,
}
use ire.Tunnel.Acceptor.Reply.{config_for_intermediate, forward_msg-IsReply}
use ire.Tunnel.Acceptor.{
  AcceptorState, Moment, Next, continue, stay, done, error, panicked, Step, only, decide, decrypted,
  decrypt_entry, resolved, offered, step_ready, step_on, step, resume, run, after,
}

All-append : {A : Type 0} (P : A → Type 0) (xs ys : List A) → All P xs → All P ys → All P (xs ++ ys)
All-append P [] ys h k = k
All-append P (x ∷ xs) ys h k = (h.0, All-append P xs ys h.1 k)

reply_accept :
    (t : ParticipantType) → (reply_for t == tunnel_accept) ≡ true → t ≡ ParticipantType.intermediate
unfolding reply_for
reply_accept ParticipantType.intermediate h = refl
reply_accept ParticipantType.inbound_gateway h = cc
reply_accept ParticipantType.outbound_endpoint h = cc

module _ {RI : Type 0} (LS : Type 0) (At : Moment RI → Type 0) (b : BloomFilter) (a : AesCrates)
    (ops : RequestOps) (from : Hash) (tb : TunnelBuild) (i : ℕ) where
  decide-Reached :
      (v : Verdict) (brr : BuildRequestRecord)
      → (v ≡ proceed → IsGranted At ops from tb i brr)
      → ReachedNext At a ops from tb i (decide {RI = RI} {LS = LS} b a ops v from brr tb i)
  unfolding decide
  decide-Reached proceed brr h = granted brr (h refl)
  decide-Reached next_is_us brr h = tt
  decide-Reached same_peers brr h = tt
  decide-Reached too_old brr h = tt
  decide-Reached too_new brr h = tt

module _ {RI LS : Type 0} (At : Moment RI → Type 0) (b : BloomFilter) (a : AesCrates)
    (ops : RequestOps) (from : Hash) (tb : TunnelBuild) (i : ℕ) (own : Bytes)
    (present : entry i (entries tb) ≡ some own) where
  -- The next state is one that an acceptor reaches, and what was given away is in order.
  pub record IsSound (st : Step b RI LS (LayerCipher a)) : Type 0 where
    pub next : ReachedNext At a ops from tb i st.next
    pub registered : All (IsRegistered At a ops from tb i) st.registered
    pub handed : All (IsAnswer At a ops from tb i) st.handed

  only-IsSound :
      (f : DecayingBloomFilter b) (n : Next RI LS (LayerCipher a))
      → ReachedNext At a ops from tb i n
      → IsSound (only b a ops f n)
  only-IsSound f n h = record { next = h; registered = tt; handed = tt }

  decrypted-IsSound :
      (f : DecayingBloomFilter b) (ct : Bytes) (m : Moment RI) (o : Option BuildRequestRecord)
      → At m
      → entry i (entries tb) ≡ some ct
      → decrypt_record ops ct ≡ o
      → IsSound (decrypted b a ops f from tb i m.now o)
  unfolding decrypted
  decrypted-IsSound f ct m none at_m e d = only-IsSound f done tt
  decrypted-IsSound f ct m (some brr) at_m e d = elim (Bool-cases (feed b f brr.reply_key).1) [
    | inl dup ↦ rw dup (only-IsSound (feed b f brr.reply_key).0 done tt)
    | inr new ↦ rw new (
        only-IsSound (feed b f brr.reply_key).0 _ (
          decide-Reached LS At b a ops from tb i (examine ops.our_hash from brr m.now) brr (λ p.
            record {
              ct = ct;
              ours = e;
              decrypts = d;
              checked = m;
              at = at_m;
              acceptable = (examine_iff ops.our_hash from brr m.now).0 p;
            })))
  ]

  decrypt_entry-IsSound :
      (f : DecayingBloomFilter b) (m : Moment RI) (o : Option Bytes)
      → At m
      → entry i (entries tb) ≡ o
      → IsSound (decrypt_entry b a ops f from tb i m.now o)
  unfolding decrypt_entry
  decrypt_entry-IsSound f m none at_m e = absurd (cc (present, e))
  decrypt_entry-IsSound f m (some ct) at_m e =
      decrypted-IsSound f ct m (decrypt_record ops ct) at_m e refl

  resolved-Reached :
      (brr : BuildRequestRecord) (m : Moment RI)
      → At m
      → IsGranted At ops from tb i brr
      → Reached {LS = LS} At a ops from tb i
          (resolved b a ops from brr tb i (m.found brr.next_ident) m.now)
  unfolding resolved info_for
  resolved-Reached brr m at_m g = elim (Bool-cases (reply_for brr.hop_type == tunnel_accept)) [
    | inl yes_reply ↦ rw yes_reply (accepted brr m at_m g (reply_accept brr.hop_type yes_reply))
    | inr no_reply ↦ rw no_reply (decided brr m at_m g)
  ]

  offered-IsSound :
      (f : DecayingBloomFilter b) (next : RI) (msg : Message RI LS) (taken : Bool)
      → IsAnswer At a ops from tb i (next, msg)
      → IsSound (offered b a ops f next msg taken)
  unfolding offered
  offered-IsSound f next msg true h = record {
    next = forwards next msg;
    registered = tt;
    handed = (h, tt);
  }
  offered-IsSound f next msg false h = only-IsSound f error tt

  step_ready-IsSound :
      (f : DecayingBloomFilter b) (s : AcceptorState RI LS (LayerCipher a)) (m : Moment RI)
      → At m
      → Reached At a ops from tb i s
      → IsSound (step_ready b a ops f s m)
  unfolding step_ready info_for
  step_ready-IsSound f s m at_m begun = decrypt_entry-IsSound f m (entry i (entries tb)) at_m refl
  step_ready-IsSound f s m at_m (granted brr g) =
      only-IsSound f (continue (resolved b a ops from brr tb i (m.found brr.next_ident) m.now))
        (resolved-Reached brr m at_m g)
  step_ready-IsSound f s m at_m (accepted brr asked at_asked g t) = record {
    next = decided brr asked at_asked g;
    registered = (
      (
        brr,
        asked,
        at_asked,
        g,
        t,
        refl,
        config_for_intermediate a from brr (asked.found brr.next_ident) asked.now t,
      ),
      tt,
    );
    handed = tt;
  }
  step_ready-IsSound f s m at_m (decided brr asked at_asked g) =
      let next = asked.found brr.next_ident in
      offered-IsSound f _ (forward_msg a ops (info_for brr tb i next) m.padding m.now) m.accepted (
        brr,
        asked,
        m,
        at_asked,
        at_m,
        g,
        refl,
        forward_msg-IsReply a ops brr tb i next m.padding g.ct m.now g.ours,
      )
  step_ready-IsSound f s m at_m (forwards next msg) = only-IsSound f done tt

  step_on-IsSound :
      (f : DecayingBloomFilter b) (s : AcceptorState RI LS (LayerCipher a)) (m : Moment RI)
      (o : Answer)
      → At m
      → Reached At a ops from tb i s
      → IsSound (step_on b a ops f s m o)
  unfolding step_on
  step_on-IsSound f s m ready at_m r = step_ready-IsSound f s m at_m r
  step_on-IsSound f s m not_ready at_m r = only-IsSound f (stay s) r
  step_on-IsSound f s m failed at_m r = only-IsSound f error tt

  after-IsSound :
      (st rest : Step b RI LS (LayerCipher a))
      → IsSound st
      → IsSound rest
      → IsSound (after b a ops st rest)
  after-IsSound st rest h k = record {
    next = k.next;
    registered = All-append _ st.registered rest.registered h.registered k.registered;
    handed = All-append _ st.handed rest.handed h.handed k.handed;
  }

  resume-IsSound :
      (k : DecayingBloomFilter b
        → AcceptorState RI LS (LayerCipher a)
        → Step b RI LS (LayerCipher a))
      (st : Step b RI LS (LayerCipher a)) (n : Next RI LS (LayerCipher a))
      → IsSound st
      → ReachedNext At a ops from tb i n
      → ((s : AcceptorState RI LS (LayerCipher a))
          → Reached At a ops from tb i s
          → IsSound (k st.filter s))
      → IsSound (resume b a ops k st n)
  unfolding resume
  resume-IsSound k st (continue s) h r ih = after-IsSound st (k st.filter s) h (ih s r)
  resume-IsSound k st (stay s) h r ih = after-IsSound st (k st.filter s) h (ih s r)
  resume-IsSound k st done h r ih = h
  resume-IsSound k st error h r ih = h
  resume-IsSound k st panicked h r ih = h

  -- For a request that has the entry, whatever the outside answers: an acceptor never panics,
  -- registers only what `IsRegistered` describes, and hands over only what `IsAnswer` describes.
  pub run-IsSound :
      (f : DecayingBloomFilter b) (s : AcceptorState RI LS (LayerCipher a)) (ms : List (Moment RI))
      → All At ms
      → Reached At a ops from tb i s
      → IsSound (run b a ops f s ms)
  unfolding run
  run-IsSound f s [] h r = only-IsSound f (stay s) r
  run-IsSound f s (m ∷ ms) h r =
      let st = step b a ops f s m in
      let sound : IsSound st = unfold step in step_on-IsSound f s m m.answer h.0 r in
      resume-IsSound (λ g s1. run b a ops g s1 ms) st st.next sound sound.next
        (λ s1 r1. run-IsSound st.filter s1 ms h.1 r1)
