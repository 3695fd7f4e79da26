-- ===== src/I2np/Framing/Nested.antt =====
-- Messages are read as their layout, garlic in garlic included, by a parser with fuel for their
-- depth.
use ire.Prelude.{ℕ, zero, suc, ◌<◌, ◌≤◌, arith, Bytes}
use ire.Crypto.{CurveSizes}
use ire.I2np.{
  Message, message, MessagePayload, database_store, database_lookup, database_search_reply,
  delivery_status, garlic, tunnel_data, tunnel_gateway, plain_data, tunnel_build,
  tunnel_build_reply, variable_tunnel_build, variable_tunnel_build_reply, Cloves, no_cloves, clove,
}
use ire.I2np.Frame.{EntryParsers}
use ire.I2np.Frame.Payloads.{
  database_lookup-Reads, database_search_reply-Reads, delivery_status-Reads, tunnel_data-Reads,
  data-Reads, tunnel_build-Reads, tunnel_build_reply-Reads, variable_tunnel_build-Reads,
  variable_tunnel_build_reply-Reads,
}
use ire.I2np.Framing.{
  checksum, clove_count, garlic_clove, parse_payload, parse_message, message_type,
}
use ire.I2np.Framing.Read.{
  ReadsEntries, clove_list, framed_message-Reads, database_store-Reads, IsEntry-lt,
  parse_garlic-Reads, no_cloves-Reads, more_cloves-Reads, garlic_clove-Reads,
}
use ire.I2np.Framing.Layout.{
  EntryLayout, message_bytes, payload_bytes, cloves_bytes, message_depth, payload_depth,
  cloves_depth, IsMessage, IsPayload, AreCloves,
}
use ire.Wire.Nom.{Nom}
use ire.Wire.Reads.{Reads}

module _ (nom : Nom) (sizes : CurveSizes) (sha256 : Bytes → Bytes) {RI LS : Type 0}
    (entries : EntryParsers nom RI LS) (layout : EntryLayout RI LS) where
  mutual
    unfolding parse_message message_bytes message_depth IsMessage parse_payload message_type
        clove_count clove_list

    pub message-Reads :
        (m : Message RI LS) (depth : ℕ)
        → ReadsEntries nom entries layout
        → ((x : Bytes) → checksum sha256 x < 256)
        → IsMessage sizes sha256 layout m
        → message_depth m ≤ depth
        → Reads (parse_message nom sizes sha256 entries depth) (message_bytes sha256 layout m) m
    message-Reads (message id expiration p) zero re small h d = absurd (omega arith)
    message-Reads (message id expiration p) (suc depth) re small h d =
        framed_message-Reads nom sizes sha256 entries layout
          (parse_payload nom sizes sha256 entries (parse_message nom sizes sha256 entries depth)) id
          expiration p (payload_bytes sha256 layout p) small h.0 h.1 h.2
          (payload-Reads p depth re small h.3 (omega arith))

    pub payload-Reads :
        (p : MessagePayload RI LS) (depth : ℕ)
        → ReadsEntries nom entries layout
        → ((x : Bytes) → checksum sha256 x < 256)
        → IsPayload sizes sha256 layout p
        → payload_depth p ≤ depth
        → Reads
            (parse_payload nom sizes sha256 entries
              (parse_message nom sizes sha256 entries depth)
              (message_type p))
            (payload_bytes sha256 layout p)
            p
    payload-Reads (database_store ds) depth re small h d =
        database_store-Reads nom sizes sha256 entries layout ds re h.0 h.1 h.2
          (IsEntry-lt nom sizes sha256 entries layout ds.ds_type ds.payload h.2)
    payload-Reads (database_lookup dl) depth re small h d = database_lookup-Reads nom dl h
    payload-Reads (database_search_reply dsr) depth re small h d =
        database_search_reply-Reads nom dsr h
    payload-Reads (delivery_status ds) depth re small h d = delivery_status-Reads nom ds h
    payload-Reads (garlic cs cert id expiration) depth re small h d =
        parse_garlic-Reads nom sizes sha256 entries layout
          (parse_message nom sizes sha256 entries depth) cs cert id expiration
          (cloves_bytes sha256 layout cs) h.0 (cloves-Reads cs depth re small h.1 d) h.2 h.3 h.4
    payload-Reads (tunnel_data td) depth re small h d = tunnel_data-Reads nom td h
    payload-Reads (tunnel_gateway tg) depth re small h d = absurd h
    payload-Reads (plain_data b) depth re small h d = data-Reads nom b h
    payload-Reads (tunnel_build tb) depth re small h d = tunnel_build-Reads nom tb h.0 h.1
    payload-Reads (tunnel_build_reply tb) depth re small h d =
        tunnel_build_reply-Reads nom tb h.0 h.1
    payload-Reads (variable_tunnel_build tb) depth re small h d =
        variable_tunnel_build-Reads nom tb h.0 h.1
    payload-Reads (variable_tunnel_build_reply tb) depth re small h d =
        variable_tunnel_build_reply-Reads nom tb h.0 h.1

    cloves-Reads :
        (cs : Cloves RI LS) (depth : ℕ)
        → ReadsEntries nom entries layout
        → ((x : Bytes) → checksum sha256 x < 256)
        → AreCloves sizes sha256 layout cs
        → cloves_depth cs ≤ depth
        → Reads
            (nom.count
              (garlic_clove nom sizes sha256 (parse_message nom sizes sha256 entries depth))
              (clove_count cs))
            (cloves_bytes sha256 layout cs)
            (clove_list cs)
    cloves-Reads no_cloves depth re small h d = no_cloves-Reads nom sizes sha256 entries layout _
    cloves-Reads (clove di msg id expiration cert cs) depth re small h d =
        more_cloves-Reads nom sizes sha256 entries layout _ _ _ _ _ _
          (garlic_clove-Reads nom sizes sha256 entries layout _ di msg id expiration cert _ h.0
            (message-Reads msg depth re small h.1 (omega arith)) h.2 h.3 h.4)
          (cloves-Reads cs depth re small h.5 (omega arith))
