-- ===== src/I2np/Frame/Payloads.antt =====
-- The payloads of src/i2np/frame.rs that hold no other message are read as their layouts.
use Prim.Native.Nat.{◌^◌}
use ire.Prelude.{◌<◌, ◌≡◌, refl, subst, List, Bytes, All, length, append_assoc}
use ire.Crypto.Frame.{session_key}
use ire.Data.Frame.{hash, tunnel_id, session_tag}
use ire.Data.Frame.RoundTrip.{hash-Reads, tunnel_id-Reads, i2p_date-Reads}
use ire.I2np.{
  DatabaseLookup, DatabaseSearchReply, DeliveryStatus, TunnelData, database_lookup,
  database_search_reply, delivery_status, tunnel_data, plain_data, tunnel_build, tunnel_build_reply,
  variable_tunnel_build, variable_tunnel_build_reply,
}
use ire.I2np.Frame.Parse.{
  database_lookup_flags, database_lookup_of, parse_database_lookup, parse_database_search_reply,
  parse_delivery_status, parse_tunnel_data, parse_data, parse_tunnel_build,
  parse_tunnel_build_reply, parse_variable_tunnel_build, parse_variable_tunnel_build_reply,
}
use ire.I2np.Frame.Generate.{is_some}
use ire.I2np.Frame.Layout.{
  optional, Has, as_is, lookup_byte, reply_enc_bytes, database_lookup_bytes, IsDatabaseLookup,
  database_search_reply_bytes, IsDatabaseSearchReply, delivery_status_bytes, IsDeliveryStatus,
  tunnel_data_bytes, IsTunnelData, data_bytes, variable_build_bytes,
}
use ire.I2np.Frame.Flags.{lookup_byte-bytes}
use ire.I2np.Frame.Optional.{All-map, Within-map, announced-Reads}
use ire.I2np.Frame.Leaves.{database_lookup_flags-Reads, reply_enc-Reads, hashes-Reads}
use ire.Wire.{◌<>◌, be_bytes}
use ire.Wire.Nom.{Nom}
use ire.Wire.Reads.{
  Reads, Reads-then, Reads-bind, Reads-bytes, Reads-returns, map-Reads, take-Reads, be_u8-Reads,
  be_u16-Reads, be_u32-Reads, pair-Reads, each, count-Reads, length_count-Reads, length_data-Reads,
}

module _ (nom : Nom) where
  build_records-Reads :
      (tb : List Bytes) → All (Has 528) tb → All (λ r. Reads (nom.take 528) r r) tb
  build_records-Reads tb h = All-map (take-Reads nom 528) tb h

  eight-Reads :
      (tb : List Bytes)
      → length tb ≡ 8
      → All (Has 528) tb
      → Reads (nom.count (nom.take 528) 8) (each as_is tb) tb
  eight-Reads tb l h =
      subst (λ n. Reads (nom.count (nom.take 528) n) (each as_is tb) tb) l
        (count-Reads nom as_is tb (build_records-Reads tb h))

  counted_records-Reads :
      (tb : List Bytes)
      → length tb < 256
      → All (Has 528) tb
      → Reads (nom.length_count nom.be_u8 (nom.take 528)) (variable_build_bytes tb) tb
  unfolding variable_build_bytes
  counted_records-Reads tb l h =
      length_count-Reads nom as_is tb (be_u8-Reads nom (length tb) l) (build_records-Reads tb h)

  lookup_body-Reads :
      (dl : DatabaseLookup)
      → IsDatabaseLookup dl
      → Reads
          (nom.pair (nom.cond (is_some dl.reply_tid) (tunnel_id nom)) (
            nom.pair (nom.length_count nom.be_u16 (hash nom)) (
              nom.cond
                (is_some dl.reply_enc)
                (nom.pair (session_key nom) (nom.length_count nom.be_u8 (session_tag nom))))))
          (optional (be_bytes 4) dl.reply_tid
            <> (be_bytes 2 (length dl.excluded_peers) <> each as_is dl.excluded_peers)
            <> optional reply_enc_bytes dl.reply_enc)
          (dl.reply_tid, (dl.excluded_peers, dl.reply_enc))
  lookup_body-Reads dl h =
      pair-Reads nom
        (announced-Reads nom (be_bytes 4) dl.reply_tid _ refl
          (Within-map (tunnel_id-Reads nom) dl.reply_tid h.reply_tid))
        (pair-Reads nom
          (length_count-Reads nom as_is dl.excluded_peers
            (be_u16-Reads nom (length dl.excluded_peers) h.few_peers)
            (hashes-Reads nom dl.excluded_peers h.peers))
          (announced-Reads nom reply_enc_bytes dl.reply_enc _ refl
            (Within-map (reply_enc-Reads nom) dl.reply_enc h.reply_enc)))

  lookup_head-Reads :
      (dl : DatabaseLookup)
      → IsDatabaseLookup dl
      → Reads
          (nom.pair (hash nom) (nom.pair (hash nom) (database_lookup_flags nom)))
          (dl.key
            <> dl.from
            <> be_bytes 1
                (lookup_byte (is_some dl.reply_tid) (is_some dl.reply_enc) dl.lookup_type))
          (
            dl.key,
            (
              dl.from,
              record {
                delivery = is_some dl.reply_tid;
                encryption = is_some dl.reply_enc;
                lookup_type = dl.lookup_type;
              },
            ),
          )
  lookup_head-Reads dl h =
      let d = is_some dl.reply_tid in
      let e = is_some dl.reply_enc in
      pair-Reads nom (hash-Reads nom dl.key h.key) (
        pair-Reads nom (hash-Reads nom dl.from h.from) (
          Reads-bytes (lookup_byte-bytes d e dl.lookup_type)
            (database_lookup_flags-Reads nom d e dl.lookup_type)))

module _ (nom : Nom) {RI LS : Type 0} where
  pub database_lookup-Reads :
      (dl : DatabaseLookup)
      → IsDatabaseLookup dl
      → Reads
          (parse_database_lookup nom {RI = RI} {LS = LS})
          (database_lookup_bytes dl)
          (database_lookup dl)
  unfolding parse_database_lookup database_lookup_bytes database_lookup_of
  database_lookup-Reads dl h = Reads-bytes (simp append_assoc) (
      Reads-bind (database_lookup_of nom) (lookup_head-Reads nom dl h)
        (map-Reads nom _ (lookup_body-Reads nom dl h)))

  pub database_search_reply-Reads :
      (dsr : DatabaseSearchReply)
      → IsDatabaseSearchReply dsr
      → Reads
          (parse_database_search_reply nom {RI = RI} {LS = LS})
          (database_search_reply_bytes dsr)
          (database_search_reply dsr)
  unfolding parse_database_search_reply database_search_reply_bytes
  database_search_reply-Reads dsr h = Reads-bytes (simp append_assoc) (
      map-Reads nom _ (
        pair-Reads nom (hash-Reads nom dsr.key h.key) (
          pair-Reads nom
            (length_count-Reads nom as_is dsr.peers (be_u8-Reads nom (length dsr.peers) h.few_peers)
              (hashes-Reads nom dsr.peers h.peers))
            (hash-Reads nom dsr.from h.from))))

  pub delivery_status-Reads :
      (ds : DeliveryStatus)
      → IsDeliveryStatus ds
      → Reads
          (parse_delivery_status nom {RI = RI} {LS = LS})
          (delivery_status_bytes ds)
          (delivery_status ds)
  unfolding parse_delivery_status delivery_status_bytes
  delivery_status-Reads ds h =
      map-Reads nom _
        (pair-Reads nom (be_u32-Reads nom ds.msg_id h.0) (i2p_date-Reads nom ds.time_stamp h.1))

  pub tunnel_data-Reads :
      (td : TunnelData)
      → IsTunnelData td
      → Reads (parse_tunnel_data nom {RI = RI} {LS = LS}) (tunnel_data_bytes td) (tunnel_data td)
  unfolding parse_tunnel_data tunnel_data_bytes
  tunnel_data-Reads td h =
      map-Reads nom _
        (pair-Reads nom (tunnel_id-Reads nom td.tid h.0) (take-Reads nom 1024 td.body h.1))

  pub data-Reads :
      (d : Bytes)
      → length d < 2 ^ 32
      → Reads (parse_data nom {RI = RI} {LS = LS}) (data_bytes d) (plain_data d)
  unfolding parse_data data_bytes
  data-Reads d h = map-Reads nom _ (length_data-Reads nom d (be_u32-Reads nom (length d) h))

  pub tunnel_build-Reads :
      (tb : List Bytes)
      → length tb ≡ 8
      → All (Has 528) tb
      → Reads (parse_tunnel_build nom {RI = RI} {LS = LS}) (each as_is tb) (tunnel_build tb)
  unfolding parse_tunnel_build
  tunnel_build-Reads tb l h = Reads-then _ (eight-Reads nom tb l h) (Reads-returns _)

  pub tunnel_build_reply-Reads :
      (tb : List Bytes)
      → length tb ≡ 8
      → All (Has 528) tb
      → Reads
          (parse_tunnel_build_reply nom {RI = RI} {LS = LS})
          (each as_is tb)
          (tunnel_build_reply tb)
  unfolding parse_tunnel_build_reply
  tunnel_build_reply-Reads tb l h = Reads-then _ (eight-Reads nom tb l h) (Reads-returns _)

  pub variable_tunnel_build-Reads :
      (tb : List Bytes)
      → length tb < 256
      → All (Has 528) tb
      → Reads
          (parse_variable_tunnel_build nom {RI = RI} {LS = LS})
          (variable_build_bytes tb)
          (variable_tunnel_build tb)
  unfolding parse_variable_tunnel_build
  variable_tunnel_build-Reads tb l h =
      Reads-then _ (counted_records-Reads nom tb l h) (Reads-returns _)

  pub variable_tunnel_build_reply-Reads :
      (tb : List Bytes)
      → length tb < 256
      → All (Has 528) tb
      → Reads
          (parse_variable_tunnel_build_reply nom {RI = RI} {LS = LS})
          (variable_build_bytes tb)
          (variable_tunnel_build_reply tb)
  unfolding parse_variable_tunnel_build_reply
  variable_tunnel_build_reply-Reads tb l h =
      Reads-then _ (counted_records-Reads nom tb l h) (Reads-returns _)
