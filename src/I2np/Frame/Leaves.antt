-- ===== src/I2np/Frame/Leaves.antt =====
-- The payloads of src/i2np/frame.rs that hold no other message are read as their layouts.
use Prim.Native.Nat.{◌^◌}
use ire.Prelude.{
  ◌<◌, ◌≡◌, refl, arith, Bool, true, false, Option, none, some, List, [], ◌∷◌, All, length, ltb,
}
use ire.Crypto.Frame.{session_key, session_key-Reads}
use ire.Data.{Hash, SessionKey, SessionTag}
use ire.Data.Frame.{hash, session_tag}
use ire.Data.Frame.RoundTrip.{hash-Reads, tunnel_id-Reads, session_tag-Reads}
use ire.I2np.{ReplyPath, DatabaseLookupType, any, lease_set, router_info, exploratory}
use ire.I2np.Frame.Parse.{
  is_set, lookup_type_of, reply_path_of, reply_path, lookup_flags_of, database_lookup_flags,
}
use ire.I2np.Frame.Generate.{lookup_type_bits}
use ire.I2np.Frame.Layout.{
  Has, bit, as_is, reply_path_bytes, IsReplyPath, lookup_byte, reply_enc_bytes, IsReplyEnc,
}
use ire.I2np.Frame.Flags.{lookup_byte-fields}
use ire.I2np.Frame.Optional.{All-map, said-Reads}
use ire.Wire.{◌<>◌, be_bytes}
use ire.Wire.Nom.{Nom}
use ire.Wire.Reads.{
  Reads, Reads-then, Reads-bind, Reads-value, Reads-returns, map-Reads, be_u8-Reads, be_u32-Reads,
  pair-Reads, length_count-Reads, cond_false-Reads,
}
use ire.Wire.ReadsBits.{take_bits-ReadsBits, pair-ReadsBits, preceded-ReadsBits, bits-Reads}

pub is_set-bit : (b : Bool) → is_set (bit b) ≡ b
unfolding is_set
is_set-bit true = refl
is_set-bit false = refl

module _ (nom : Nom) where
  reply_path_of-Reads :
      (p : ReplyPath)
      → 0 < p.token
      → p.tid < 2 ^ 32
      → Has 32 p.gateway
      → Reads (reply_path_of nom p.token) (be_bytes 4 p.tid <> p.gateway) (some p)
  unfolding reply_path_of
  reply_path_of-Reads p pos t g =
      said-Reads nom (ltb 0 p.token) (ground arith) (
        map-Reads nom _ (pair-Reads nom (tunnel_id-Reads nom p.tid t) (hash-Reads nom p.gateway g)))

  pub reply_path-Reads :
      (o : Option ReplyPath) → IsReplyPath o → Reads (reply_path nom) (reply_path_bytes o) o
  unfolding reply_path reply_path_bytes IsReplyPath reply_path_of
  reply_path-Reads none h =
      Reads-then (reply_path_of nom) (be_u32-Reads nom 0 (omega arith)) (cond_false-Reads nom _)
  reply_path-Reads (some p) h =
      Reads-bind (reply_path_of nom) (be_u32-Reads nom p.token h.1)
        (reply_path_of-Reads p h.0 h.2 h.3)

  lookup_fields-Reads :
      (d e : Bool) (t : DatabaseLookupType)
      → Reads
          (nom.bits (
            nom.preceded
              (nom.take_bits 4)
              (nom.pair (nom.take_bits 2) (nom.pair (nom.take_bits 1) (nom.take_bits 1)))))
          (lookup_byte d e t ∷ [])
          (lookup_type_bits t, (bit e, bit d))
  lookup_fields-Reads d e t =
      let b = lookup_byte d e t in
      Reads-value (lookup_byte-fields d e t) (
        bits-Reads nom (
          preceded-ReadsBits nom (omega arith) (take_bits-ReadsBits nom 4 0 b (omega arith)) (
            pair-ReadsBits nom (omega arith) (take_bits-ReadsBits nom 2 4 b (omega arith)) (
              pair-ReadsBits nom (omega arith) (take_bits-ReadsBits nom 1 6 b (omega arith))
                (take_bits-ReadsBits nom 1 7 b (omega arith))))))

  lookup_type_of-bits :
      (t : DatabaseLookupType) → Reads {E = nom.Err} (lookup_type_of (lookup_type_bits t)) [] t
  unfolding lookup_type_of lookup_type_bits
  lookup_type_of-bits any = Reads-returns any
  lookup_type_of-bits lease_set = Reads-returns lease_set
  lookup_type_of-bits router_info = Reads-returns router_info
  lookup_type_of-bits exploratory = Reads-returns exploratory

  lookup_flags_of-Reads :
      (d e : Bool) (t : DatabaseLookupType)
      → Reads
          (lookup_flags_of nom (lookup_type_bits t, (bit e, bit d)))
          []
          (record { delivery = d; encryption = e; lookup_type = t })
  unfolding lookup_flags_of
  lookup_flags_of-Reads d e t =
      rw (is_set-bit d, is_set-bit e) (Reads-then _ (lookup_type_of-bits t) (Reads-returns _))

  pub database_lookup_flags-Reads :
      (d e : Bool) (t : DatabaseLookupType)
      → Reads
          (database_lookup_flags nom)
          (lookup_byte d e t ∷ [])
          (record { delivery = d; encryption = e; lookup_type = t })
  unfolding database_lookup_flags
  database_lookup_flags-Reads d e t =
      Reads-then (lookup_flags_of nom) (lookup_fields-Reads d e t) (lookup_flags_of-Reads d e t)

  pub reply_enc-Reads :
      (r : SessionKey × List SessionTag)
      → IsReplyEnc r
      → Reads
          (nom.pair (session_key nom) (nom.length_count nom.be_u8 (session_tag nom)))
          (reply_enc_bytes r)
          r
  unfolding IsReplyEnc reply_enc_bytes
  reply_enc-Reads (k, tags) h = pair-Reads nom (session_key-Reads nom k h.0) (
      length_count-Reads nom as_is tags (be_u8-Reads nom (length tags) h.1)
        (All-map (session_tag-Reads nom) tags h.2))

  pub hashes-Reads : (hs : List Hash) → All (Has 32) hs → All (λ h. Reads (hash nom) h h) hs
  hashes-Reads hs h = All-map (hash-Reads nom) hs h
