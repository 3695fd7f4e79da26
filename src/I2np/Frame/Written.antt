-- ===== src/I2np/Frame/Written.antt =====
-- The payloads of src/i2np/frame.rs that hold no other message are written as their layouts.
use ire.Prelude.{
  ◌%◌, ◌<◌, ◌≡◌, refl, sym, ap, arith, Option, none, some, List, [], ◌∷◌, Bytes, All, length,
  append-nil,
}
use ire.Crypto.Frame.{gen_session_key, gen_session_key-Writes}
use ire.Data.{SessionKey, SessionTag}
use ire.Data.Frame.{gen_hash, gen_tunnel_id}
use ire.Data.Frame.RoundTrip.{
  gen_hash-Writes, gen_tunnel_id-Writes, gen_i2p_date-Writes, gen_session_tag-Writes,
  be_u16_cast-Writes, be_u8_cast-Writes,
}
use ire.I2np.{
  ReplyPath, DatabaseLookup, DatabaseSearchReply, DeliveryStatus, TunnelData, TunnelGateway,
  GarlicCloveDeliveryInstructions,
}
use ire.I2np.Frame.Generate.{
  is_some, gen_reply_path, gen_database_lookup_flags, gen_reply_enc, gen_database_lookup,
  gen_database_search_reply, gen_delivery_status, gen_garlic_clove_delivery_instructions,
  gen_tunnel_data, gen_tunnel_gateway, gen_data, gen_tunnel_build, gen_records,
  gen_variable_tunnel_build,
}
use ire.I2np.Frame.Layout.{
  as_is, reply_path_bytes, lookup_byte, reply_enc_bytes, IsReplyEnc, database_lookup_bytes,
  IsDatabaseLookup, database_search_reply_bytes, IsDatabaseSearchReply, delivery_status_bytes,
  instructions_bytes, IsInstructions, tunnel_data_bytes, data_bytes, variable_build_bytes,
}
use ire.I2np.Frame.Flags.{lookup_flags_byte-eq, instructions_byte-eq}
use ire.I2np.Frame.Optional.{announced-Writes, Within-all, Within-map}
use ire.Wire.{◌<>◌, be_bytes, Gen}
use ire.Wire.Cookie.{Cookie}
use ire.Wire.Reads.{each}
use ire.Wire.Writes.{
  Writes, Writes-bytes, Writes-then, slice-Writes, be_u8-Writes, be_u32-Writes, many-Writes,
  do_gen-Writes, do_gen-Writes_last, nothing_at,
}

module _ (cf : Cookie) where
  pub gen_reply_path-Writes :
      (o : Option ReplyPath) → Writes (gen_reply_path cf o) (reply_path_bytes o)
  unfolding gen_reply_path reply_path_bytes
  gen_reply_path-Writes none = be_u32-Writes cf 0
  gen_reply_path-Writes (some p) = do_gen-Writes cf (be_u32-Writes cf p.token) (
      do_gen-Writes cf (gen_tunnel_id-Writes cf p.tid)
        (do_gen-Writes_last cf (gen_hash-Writes cf p.gateway)))

  All-Writes :
      {g : Bytes → Gen cf.GenError} (w : (x : Bytes) → Writes (g x) x) (xs : List Bytes)
      → All (λ x. Writes (g x) (as_is x)) xs
  All-Writes w [] = tt
  All-Writes w (x ∷ xs) = (w x, All-Writes w xs)

  gen_reply_enc-Writes :
      (r : SessionKey × List SessionTag)
      → IsReplyEnc r
      → Writes (gen_reply_enc cf r) (reply_enc_bytes r)
  unfolding gen_reply_enc reply_enc_bytes IsReplyEnc
  gen_reply_enc-Writes (k, tags) h = do_gen-Writes cf (gen_session_key-Writes cf k) (
      do_gen-Writes cf (be_u8_cast-Writes cf (length tags) h.1) (
        do_gen-Writes_last cf
          (many-Writes cf as_is tags (All-Writes (gen_session_tag-Writes cf) tags))))

  gen_database_lookup_flags-Writes :
      (dl : DatabaseLookup)
      → Writes
          (gen_database_lookup_flags cf (record {
            delivery = is_some dl.reply_tid;
            encryption = is_some dl.reply_enc;
            lookup_type = dl.lookup_type;
          }))
          (be_bytes 1 (lookup_byte (is_some dl.reply_tid) (is_some dl.reply_enc) dl.lookup_type))
  unfolding gen_database_lookup_flags
  gen_database_lookup_flags-Writes dl =
      Writes-bytes
        (ap (be_bytes 1)
          (lookup_flags_byte-eq (is_some dl.reply_tid) (is_some dl.reply_enc) dl.lookup_type))
        (be_u8-Writes cf _)

  pub gen_database_lookup-Writes :
      (dl : DatabaseLookup)
      → IsDatabaseLookup dl
      → Writes (gen_database_lookup cf dl) (database_lookup_bytes dl)
  unfolding gen_database_lookup database_lookup_bytes
  gen_database_lookup-Writes dl h =
      (do_gen-Writes cf (gen_hash-Writes cf dl.key) (
        do_gen-Writes cf (gen_hash-Writes cf dl.from) (
          do_gen-Writes cf (gen_database_lookup_flags-Writes dl) (
            do_gen-Writes cf
              (announced-Writes cf (gen_tunnel_id cf) (be_bytes 4) dl.reply_tid _ refl
                (Within-all (gen_tunnel_id-Writes cf) dl.reply_tid))
              (do_gen-Writes cf (be_u16_cast-Writes cf (length dl.excluded_peers) h.few_peers) (
                do_gen-Writes cf
                  (many-Writes cf as_is dl.excluded_peers
                    (All-Writes (gen_hash-Writes cf) dl.excluded_peers))
                  (do_gen-Writes_last cf (
                    announced-Writes cf (gen_reply_enc cf) reply_enc_bytes dl.reply_enc _ refl
                      (Within-map gen_reply_enc-Writes dl.reply_enc h.reply_enc)))))))))

  pub gen_database_search_reply-Writes :
      (dsr : DatabaseSearchReply)
      → IsDatabaseSearchReply dsr
      → Writes (gen_database_search_reply cf dsr) (database_search_reply_bytes dsr)
  unfolding gen_database_search_reply database_search_reply_bytes
  gen_database_search_reply-Writes dsr h =
      (do_gen-Writes cf (gen_hash-Writes cf dsr.key) (
        do_gen-Writes cf (be_u8_cast-Writes cf (length dsr.peers) h.few_peers) (
          do_gen-Writes cf
            (many-Writes cf as_is dsr.peers (All-Writes (gen_hash-Writes cf) dsr.peers))
            (do_gen-Writes_last cf (gen_hash-Writes cf dsr.from)))))

  pub gen_delivery_status-Writes :
      (ds : DeliveryStatus) → Writes (gen_delivery_status cf ds) (delivery_status_bytes ds)
  unfolding gen_delivery_status delivery_status_bytes
  gen_delivery_status-Writes ds =
      do_gen-Writes cf (be_u32-Writes cf ds.msg_id)
        (do_gen-Writes_last cf (gen_i2p_date-Writes cf ds.time_stamp))

  pub gen_tunnel_data-Writes :
      (td : TunnelData) → Writes (gen_tunnel_data cf td) (tunnel_data_bytes td)
  unfolding gen_tunnel_data tunnel_data_bytes
  gen_tunnel_data-Writes td =
      do_gen-Writes cf (gen_tunnel_id-Writes cf td.tid)
        (do_gen-Writes_last cf (slice-Writes cf td.body))

  -- The body stands directly behind the tunnel's id.
  pub gen_tunnel_gateway-Writes :
      (tg : TunnelGateway) → Writes (gen_tunnel_gateway cf tg) (be_bytes 4 tg.tid <> tg.body)
  unfolding gen_tunnel_gateway
  gen_tunnel_gateway-Writes tg =
      do_gen-Writes cf (gen_tunnel_id-Writes cf tg.tid)
        (do_gen-Writes_last cf (slice-Writes cf tg.body))

  pub gen_data-Writes : (d : Bytes) → Writes (gen_data cf d) (data_bytes d)
  unfolding gen_data data_bytes
  gen_data-Writes d =
      do_gen-Writes cf (be_u32-Writes cf (length d)) (do_gen-Writes_last cf (slice-Writes cf d))

  gen_records-Writes : (tb : List Bytes) → Writes (gen_records cf tb) (each as_is tb)
  unfolding gen_records each
  gen_records-Writes [] = record { at = nothing_at }
  gen_records-Writes (r ∷ tb) =
      Writes-then (cf.slice r) (gen_records cf tb) (slice-Writes cf r) (gen_records-Writes tb)

  pub gen_variable_tunnel_build-Writes :
      (tb : List Bytes)
      → length tb < 256
      → Writes (gen_variable_tunnel_build cf tb) (variable_build_bytes tb)
  unfolding gen_variable_tunnel_build variable_build_bytes
  gen_variable_tunnel_build-Writes tb l =
      Writes-then (cf.be_u8 (length tb % 256)) (gen_records cf tb)
        (be_u8_cast-Writes cf (length tb) l) (gen_records-Writes tb)

  pub gen_tunnel_build-Writes :
      (tb : List Bytes) → length tb ≡ 8 → Writes (gen_tunnel_build cf tb) (each as_is tb)
  unfolding gen_tunnel_build each
  gen_tunnel_build-Writes (a ∷ b ∷ c ∷ d ∷ e ∷ f ∷ g ∷ h ∷ []) l =
      Writes-bytes (ap (λ x. a <> b <> c <> d <> e <> f <> g <> x) (sym (append-nil h))) (
        do_gen-Writes cf (slice-Writes cf a) (
          do_gen-Writes cf (slice-Writes cf b) (
            do_gen-Writes cf (slice-Writes cf c) (
              do_gen-Writes cf (slice-Writes cf d) (
                do_gen-Writes cf (slice-Writes cf e) (
                  do_gen-Writes cf (slice-Writes cf f) (
                    do_gen-Writes cf (slice-Writes cf g)
                      (do_gen-Writes_last cf (slice-Writes cf h)))))))))
  gen_tunnel_build-Writes [] l = absurd (omega (arith, l))
  gen_tunnel_build-Writes (a ∷ []) l = absurd (omega (arith, l))
  gen_tunnel_build-Writes (a ∷ b ∷ []) l = absurd (omega (arith, l))
  gen_tunnel_build-Writes (a ∷ b ∷ c ∷ []) l = absurd (omega (arith, l))
  gen_tunnel_build-Writes (a ∷ b ∷ c ∷ d ∷ []) l = absurd (omega (arith, l))
  gen_tunnel_build-Writes (a ∷ b ∷ c ∷ d ∷ e ∷ []) l = absurd (omega (arith, l))
  gen_tunnel_build-Writes (a ∷ b ∷ c ∷ d ∷ e ∷ f ∷ []) l = absurd (omega (arith, l))
  gen_tunnel_build-Writes (a ∷ b ∷ c ∷ d ∷ e ∷ f ∷ g ∷ []) l = absurd (omega (arith, l))
  gen_tunnel_build-Writes (a ∷ b ∷ c ∷ d ∷ e ∷ f ∷ g ∷ h ∷ i ∷ tb) l = absurd (omega (arith, l))

  pub gen_instructions-Writes :
      (gcdi : GarlicCloveDeliveryInstructions)
      → IsInstructions gcdi
      → Writes (gen_garlic_clove_delivery_instructions cf gcdi) (instructions_bytes gcdi)
  unfolding gen_garlic_clove_delivery_instructions instructions_bytes
  gen_instructions-Writes gcdi h =
      let b = instructions_byte-eq gcdi.encrypted gcdi.delivery_type gcdi.delay_set h.two_bits in
      (do_gen-Writes cf (Writes-bytes (ap (be_bytes 1) b) (be_u8-Writes cf _)) (
        do_gen-Writes cf
          (announced-Writes cf (gen_session_key cf) as_is gcdi.session_key _ h.with_key
            (Within-all (gen_session_key-Writes cf) gcdi.session_key))
          (do_gen-Writes cf
            (announced-Writes cf (gen_hash cf) as_is gcdi.to_hash _ h.with_hash
              (Within-all (gen_hash-Writes cf) gcdi.to_hash))
            (do_gen-Writes cf
              (announced-Writes cf (gen_tunnel_id cf) (be_bytes 4) gcdi.tid _ h.with_tid
                (Within-all (gen_tunnel_id-Writes cf) gcdi.tid))
              (do_gen-Writes_last cf (
                announced-Writes cf cf.be_u32 (be_bytes 4) gcdi.delay _ h.with_delay
                  (Within-all (be_u32-Writes cf) gcdi.delay)))))))
