-- ===== src/I2np/Framing/Write.antt =====
-- Messages are written as their layout.
use ire.Prelude.{
  ℕ, ◌+◌, ◌≡◌, subst, arith, List, ◌∷◌, Bytes, length, length-append, take, drop, length-take,
  length-drop, take-append-drop, append_assoc, ok,
}
use ire.Crypto.{CurveSizes}
use ire.Data.Frame.RoundTrip.{
  gen_hash-Writes, gen_i2p_date-Writes, gen_certificate-Writes, be_u8_cast-Writes,
}
use ire.I2np.{
  DatabaseStoreData, ri, ls, Message, message, MessagePayload, database_store, database_lookup,
  database_search_reply, delivery_status, garlic, tunnel_data, tunnel_gateway, plain_data,
  tunnel_build, tunnel_build_reply, variable_tunnel_build, variable_tunnel_build_reply, Cloves,
  no_cloves, clove,
}
use ire.I2np.Frame.{EntryGens}
use ire.I2np.Frame.Generate.{gen_database_store_data, gen_database_store}
use ire.I2np.Frame.Written.{
  gen_reply_path-Writes, gen_database_lookup-Writes, gen_database_search_reply-Writes,
  gen_delivery_status-Writes, gen_tunnel_data-Writes, gen_data-Writes, gen_tunnel_build-Writes,
  gen_variable_tunnel_build-Writes, gen_instructions-Writes,
}
use ire.I2np.Framing.{
  checksum, clove_count, framed, gen_message, gen_payload, gen_cloves, message_type,
}
use ire.I2np.Framing.Fill.{framed_at}
use ire.I2np.Framing.Layout.{
  EntryLayout, IsEntry, entry_bytes, framed_bytes, message_bytes, payload_bytes, cloves_bytes,
  IsMessage, IsPayload, AreCloves,
}
use ire.Wire.{◌<>◌, Gen, be_bytes}
use ire.Wire.BigEndian.{length-be_bytes}
use ire.Wire.Cookie.{Cookie}
use ire.Wire.Writes.{
  Writes, Writes-eq, Writes-then, be_u8-Writes, be_u32-Writes, do_gen-Writes, do_gen-Writes_last,
  nothing-Writes,
}

-- The generator of lease sets writes their layout.
pub record WritesEntries (cf : Cookie) {RI LS : Type 0} (entries : EntryGens cf RI LS)
    (layout : EntryLayout RI LS) : Type 0 where
  pub writes_ls : (l : LS) → layout.fits l → Writes (entries.gen_lease_set l) (layout.ls_bytes l)

-- A buffer's old bytes, divided as the frame is.
divided : (old : Bytes) → take 2 old <> take 1 (drop 2 old) <> drop 1 (drop 2 old) ≡ old
divided old = rw (take-append-drop 1 (drop 2 old)) (take-append-drop 2 old)

module _ (cf : Cookie) (sha256 : Bytes → Bytes) {RI LS : Type 0} (entries : EntryGens cf RI LS)
    (layout : EntryLayout RI LS) where
  length-framed_bytes : (bs : Bytes) → length (framed_bytes sha256 layout bs) ≡ 3 + length bs
  unfolding framed_bytes
  length-framed_bytes bs =
      let one = be_bytes 1 (checksum sha256 bs) in
      omega (
        arith,
        length-append (be_bytes 2 (length bs)) (one <> bs),
        length-append one bs,
        length-be_bytes 2 (length bs),
        length-be_bytes 1 (checksum sha256 bs),
      )

  framed_pieces :
      (g : Gen cf.GenError) (bs pre two one old post : Bytes)
      → Writes g bs
      → length two ≡ 2
      → length one ≡ 1
      → length old ≡ length bs
      → framed cf sha256 g (pre <> (two <> one <> old) <> post, length pre)
        ≡ ok (pre <> framed_bytes sha256 layout bs <> post, length pre + 3 + length bs)
  unfolding framed_bytes
  framed_pieces g bs pre two one old post w l2 l1 l =
      let size = be_bytes 2 (length bs) in
      let cs = be_bytes 1 (checksum sha256 bs) in
      rw
        (
          append_assoc two (one <> old) post,
          append_assoc one old post,
          append_assoc size (cs <> bs) post,
          append_assoc cs bs post,
        )
        (framed_at cf sha256 g pre two one old bs post w l2 l1 l)

  framed-Writes :
      (g : Gen cf.GenError) (bs : Bytes)
      → Writes g bs
      → Writes (framed cf sha256 g) (framed_bytes sha256 layout bs)
  framed-Writes g bs w = record {
    at = λ pre old post l.
        let n = length-framed_bytes bs in
        let two = take 2 old in
        let one = take 1 (drop 2 old) in
        let body = drop 1 (drop 2 old) in
        let d = length-drop 2 old in
        let e : length pre + length (framed_bytes sha256 layout bs) ≡ length pre + 3 + length bs =
          omega (arith, n) in
        let l2 : length two ≡ 2 = omega (arith, l, n, length-take 2 old) in
        let l1 : length one ≡ 1 = omega (arith, l, n, d, length-take 1 (drop 2 old)) in
        let lb : length body ≡ length bs = omega (arith, l, n, d, length-drop 1 (drop 2 old)) in
        let f = framed_pieces g bs pre two one body post w l2 l1 lb in
        rw e (
          subst
            (λ o.
              framed cf sha256 g (pre <> o <> post, length pre)
              ≡ ok (pre <> framed_bytes sha256 layout bs <> post, length pre + 3 + length bs))
            (divided old) f);
  }

  gen_entry-Writes :
      (ds_type : ℕ) (d : DatabaseStoreData RI LS)
      → WritesEntries cf entries layout
      → IsEntry layout ds_type d
      → Writes (gen_database_store_data cf entries d) (entry_bytes layout d)
  unfolding gen_database_store_data entry_bytes IsEntry
  gen_entry-Writes ds_type (ri r) we h = absurd h
  gen_entry-Writes ds_type (ls l) we h = we.writes_ls l h.1

  many_cloves-Writes :
      (g : Gen cf.GenError) (gs : List (Gen cf.GenError)) (bs more : Bytes)
      → Writes g bs
      → Writes (cf.many gs (λ h. h)) more
      → Writes (cf.many (g ∷ gs) (λ h. h)) (bs <> more)
  many_cloves-Writes g gs bs more v w =
      Writes-eq (cf.many_cons g gs (λ h. h)) (Writes-then g (cf.many gs (λ h. h)) v w)

  mutual
    unfolding gen_message message_bytes IsMessage message_type clove_count gen_database_store

    pub gen_message-Writes :
        (sizes : CurveSizes) (m : Message RI LS)
        → WritesEntries cf entries layout
        → IsMessage sizes sha256 layout m
        → Writes (gen_message cf sha256 entries m) (message_bytes sha256 layout m)
    gen_message-Writes sizes (message id expiration p) we h =
        (do_gen-Writes cf (be_u8-Writes cf (message_type p)) (
          do_gen-Writes cf (be_u32-Writes cf id) (
            do_gen-Writes cf (gen_i2p_date-Writes cf expiration)
              (do_gen-Writes_last cf (framed-Writes _ _ (gen_payload-Writes sizes p we h.3))))))

    pub gen_payload-Writes :
        (sizes : CurveSizes) (p : MessagePayload RI LS)
        → WritesEntries cf entries layout
        → IsPayload sizes sha256 layout p
        → Writes (gen_payload cf sha256 entries p) (payload_bytes sha256 layout p)
    gen_payload-Writes sizes (database_store ds) we h =
        (do_gen-Writes cf (gen_hash-Writes cf ds.key) (
          do_gen-Writes cf (be_u8-Writes cf ds.ds_type) (
            do_gen-Writes cf (gen_reply_path-Writes cf ds.reply)
              (do_gen-Writes_last cf (gen_entry-Writes ds.ds_type ds.payload we h.2)))))
    gen_payload-Writes sizes (database_lookup dl) we h = gen_database_lookup-Writes cf dl h
    gen_payload-Writes sizes (database_search_reply dsr) we h =
        gen_database_search_reply-Writes cf dsr h
    gen_payload-Writes sizes (delivery_status ds) we h = gen_delivery_status-Writes cf ds
    gen_payload-Writes sizes (garlic cs cert id expiration) we h =
        (do_gen-Writes cf (be_u8_cast-Writes cf (clove_count cs) h.0) (
          do_gen-Writes cf (gen_cloves-Writes sizes cs we h.1) (
            do_gen-Writes cf (gen_certificate-Writes cf sizes cert h.2) (
              do_gen-Writes cf (be_u32-Writes cf id)
                (do_gen-Writes_last cf (gen_i2p_date-Writes cf expiration))))))
    gen_payload-Writes sizes (tunnel_data td) we h = gen_tunnel_data-Writes cf td
    gen_payload-Writes sizes (tunnel_gateway tg) we h = absurd h
    gen_payload-Writes sizes (plain_data d) we h = gen_data-Writes cf d
    gen_payload-Writes sizes (tunnel_build tb) we h = gen_tunnel_build-Writes cf tb h.0
    gen_payload-Writes sizes (tunnel_build_reply tb) we h = gen_tunnel_build-Writes cf tb h.0
    gen_payload-Writes sizes (variable_tunnel_build tb) we h =
        gen_variable_tunnel_build-Writes cf tb h.0
    gen_payload-Writes sizes (variable_tunnel_build_reply tb) we h =
        gen_variable_tunnel_build-Writes cf tb h.0

    gen_cloves-Writes :
        (sizes : CurveSizes) (cs : Cloves RI LS)
        → WritesEntries cf entries layout
        → AreCloves sizes sha256 layout cs
        → Writes
            (cf.many (gen_cloves cf sha256 entries cs) (λ g. g))
            (cloves_bytes sha256 layout cs)
    gen_cloves-Writes sizes no_cloves we h = nothing-Writes cf (cf.many_nil (λ g. g))
    gen_cloves-Writes sizes (clove di msg id expiration cert cs) we h =
        many_cloves-Writes _ _ _ _
          (do_gen-Writes cf (gen_instructions-Writes cf di h.0) (
            do_gen-Writes cf (gen_message-Writes sizes msg we h.1) (
              do_gen-Writes cf (be_u32-Writes cf id) (
                do_gen-Writes cf (gen_i2p_date-Writes cf expiration)
                  (do_gen-Writes_last cf (gen_certificate-Writes cf sizes cert h.4))))))
          (gen_cloves-Writes sizes cs we h.5)
