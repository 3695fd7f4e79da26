-- ===== src/Tunnel/Acceptor/Reached.antt =====
-- The states that `HopAcceptor` (src/tunnel/acceptor.rs) reaches, and what it may give away, both
-- described by the request and the iterations.
use ire.Prelude.{ℕ, ◌≡◌, some, Bytes}
use ire.Data.{Hash, TunnelId}
use ire.I2np.{ParticipantType, BuildRequestRecord, Message}
use ire.Tunnel.Hop.{HopConfig}
use ire.Tunnel.Encryption.{AesCrates, LayerCipher}
use ire.Tunnel.BuildRequest.{
  RequestOps, TunnelBuild, entry, entries, decrypt_record, info_for, config_for,
}
use ire.Tunnel.BuildRequest.Examine.{IsAcceptable}
use ire.Tunnel.Acceptor.Reply.{IsReply, intermediate_config}
use ire.Tunnel.Acceptor.{
  AcceptorState, decrypting, resolving, registering, encrypting, sending, Moment, Next, continue,
  stay, done, error, panicked,
}

module _ {RI : Type 0} (At : Moment RI → Type 0) (ops : RequestOps) (from : Hash) (tb : TunnelBuild)
    (i : ℕ) where
  -- The record for this router in the request was decrypted, and it passed the checks at the time
  -- of one of the iterations.
  pub record IsGranted (brr : BuildRequestRecord) : Type 0 where
    pub ct : Bytes
    pub ours : entry i (entries tb) ≡ some ct
    pub decrypts : decrypt_record ops ct ≡ some brr
    pub checked : Moment RI
    pub at : At checked
    pub acceptable : IsAcceptable ops.our_hash from brr checked.now

module _ {RI : Type 0} (At : Moment RI → Type 0) (a : AesCrates) (ops : RequestOps) (from : Hash)
    (tb : TunnelBuild) (i : ℕ) where
  -- A tunnel that was registered: the router is an intermediate hop of it, with the record's keys,
  -- between the peer that sent the request and the answer to the lookup of the record's next hop.
  abbrev pub IsRegistered : TunnelId × HopConfig RI (LayerCipher a) → Type 0
  IsRegistered (tid, config) =
      (brr : BuildRequestRecord) × (m : Moment RI) × At m
      × IsGranted At ops from tb i brr
      × (brr.hop_type ≡ ParticipantType.intermediate)
      × (tid ≡ brr.receive_tid)
      × (config ≡ intermediate_config a from brr (m.found brr.next_ident) m.now)

module _ {RI LS : Type 0} (At : Moment RI → Type 0) (a : AesCrates) (ops : RequestOps) (from : Hash)
    (tb : TunnelBuild) (i : ℕ) where
  -- The states that an acceptor of the request reaches.
  pub data Reached : AcceptorState RI LS (LayerCipher a) → Type 0 where
    begun : Reached (decrypting from tb i)
    granted :
        (brr : BuildRequestRecord)
        → IsGranted At ops from tb i brr
        → Reached (resolving from brr.next_ident brr tb i)
    accepted :
        (brr : BuildRequestRecord) (m : Moment RI)
        → At m
        → IsGranted At ops from tb i brr
        → (brr.hop_type ≡ ParticipantType.intermediate)
        → Reached (
            registering brr.receive_tid
              (config_for a from brr (m.found brr.next_ident) m.now)
              (info_for brr tb i (m.found brr.next_ident)))
    decided :
        (brr : BuildRequestRecord) (m : Moment RI)
        → At m
        → IsGranted At ops from tb i brr
        → Reached (encrypting (info_for brr tb i (m.found brr.next_ident)))
    forwards : (next : RI) (msg : Message RI LS) → Reached (sending next msg)

  -- A message that was handed over: the answer to a granted record, for the answer to the lookup of
  -- the record's next hop.
  abbrev pub IsAnswer : RI × Message RI LS → Type 0
  IsAnswer (next, msg) =
      (brr : BuildRequestRecord) × (asked : Moment RI) × (sent : Moment RI) × At asked
      × At sent
      × IsGranted At ops from tb i brr
      × (next ≡ asked.found brr.next_ident)
      × IsReply a ops.sha256 brr tb i sent.padding sent.now msg

  abbrev pub ReachedNext : Next RI LS (LayerCipher a) → Type 0
  ReachedNext (continue s) = Reached s
  ReachedNext (stay s) = Reached s
  ReachedNext done = Unit
  ReachedNext error = Unit
  ReachedNext panicked = ⊥
