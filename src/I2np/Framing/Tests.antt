-- ===== src/I2np/Framing/Tests.antt =====
-- A garlic message around a store of a lease set, in both frames; a wrong checksum; and a tunnel gateway.
use ire.Prelude.{
  ◌+◌, ◌<◌, ◌≤◌, ◌≡◌, ◌≢◌, refl, arith, false, none, some, [], ◌∷◌, Bytes, length, replicate, ok,
  err,
}
use ire.Crypto.Tests.{sizes}
use ire.Data.{Certificate}
use ire.Data.Frame.Encoding.{certificate_bytes, IsEncodable}
use ire.I2np.{
  GarlicCloveDeliveryInstructions, Message, message, DatabaseStore, ri, database_store, ls, garlic,
  no_cloves, clove, tunnel_gateway,
}
use ire.I2np.Frame.{EntryParsers, EntryGens}
use ire.I2np.Frame.Parse.{parse_tunnel_gateway}
use ire.I2np.Frame.Generate.{gen_tunnel_gateway}
use ire.I2np.Frame.Layout.{reply_path_bytes, IsReplyPath, instructions_bytes, IsInstructions}
use ire.I2np.Framing.{
  checksum, clove_count, message_type, parse_message, ntcp2_message, gen_message, gen_ntcp2_message,
}
use ire.I2np.Framing.Layout.{
  EntryLayout, entry_bytes, IsEntry, framed_bytes, message_bytes, payload_bytes, message_depth,
  IsMessage,
}
use ire.I2np.Framing.Read.{ReadsEntries}
use ire.I2np.Framing.Write.{WritesEntries}
use ire.I2np.Framing.RoundTrip.{
  gen_message-parse_message, ntcp2_bytes, to_seconds, IsNtcp2, gen_ntcp2_message-ntcp2_message,
}
use ire.I2np.Framing.Unwritten.{gen_message-unwritten}
use ire.I2np.Framing.Refusal.{
  header_bytes, parse_message-corrupt, gen_tunnel_gateway-parse_tunnel_gateway,
}
use ire.Wire.{error, ◌<>◌, be_bytes, returns}
use ire.Wire.Reads.{map-Reads, be_u8-Reads}
use ire.Wire.Writes.{be_u8-Writes}
use ire.Wire.Reference.{reference_nom, reference_cookie}

-- Lease sets of one byte.
abbrev parsers : EntryParsers reference_nom Unit Unit
parsers = record {
  compressed_ri = returns tt;
  lease_set = reference_nom.map reference_nom.be_u8 (λ n. tt);
}

abbrev gens : EntryGens reference_cookie Unit Unit
gens = record {
  router_info_parts = record {
    public_key = λ r. replicate 256 3;
    identity_rest = λ r. [];
    info_rest = λ r. [];
    signature = λ r. some (reference_cookie.do_gen []);
  };
  gz_encode = λ bs. some (8 ∷ bs);
  gen_lease_set = λ l. reference_cookie.be_u8 7;
}

abbrev layout : EntryLayout Unit Unit
layout = record { fits = λ l. Unit; ls_bytes = λ l. be_bytes 1 7 }

reads : ReadsEntries reference_nom parsers layout
reads = record {
  reads_ls =
      λ l fits. map-Reads reference_nom (λ n. tt) (be_u8-Reads reference_nom 7 (omega arith));
}

writes : WritesEntries reference_cookie gens layout
writes = record { writes_ls = λ l fits. be_u8-Writes reference_cookie 7 }

abbrev sha256 : Bytes → Bytes
sha256 bs = 5 ∷ replicate 31 0

small : (x : Bytes) → checksum sha256 x < 256
unfolding checksum
small x = omega arith

abbrev instructions : GarlicCloveDeliveryInstructions
instructions = record {
  encrypted = false;
  delivery_type = 0;
  delay_set = false;
  session_key = none;
  to_hash = none;
  tid = none;
  delay = none;
}

instructions-IsInstructions : IsInstructions instructions
instructions-IsInstructions = record {
  two_bits = omega arith;
  with_key = refl;
  with_hash = refl;
  with_tid = refl;
  with_delay = refl;
  session_key = tt;
  to_hash = tt;
  tid = tt;
  delay = tt;
}

abbrev inner : Message Unit Unit
inner =
    message 3 5000
      (database_store (record { key = replicate 32 6; ds_type = 1; reply = none; payload = ls tt }))

abbrev wrapped : Message Unit Unit
wrapped =
    message 12 7001
      (garlic (clove instructions inner 1 2000 Certificate.null no_cloves) Certificate.null 4 3000)

wrapped_size : 102 ≡ length (message_bytes sha256 layout wrapped)
unfolding message_bytes framed_bytes reply_path_bytes entry_bytes instructions_bytes
    certificate_bytes be_bytes checksum clove_count message_type
wrapped_size = refl

wrapped-IsMessage : IsMessage sizes sha256 layout wrapped
unfolding IsMessage payload_bytes framed_bytes reply_path_bytes entry_bytes instructions_bytes
    certificate_bytes be_bytes checksum clove_count message_type IsEncodable IsReplyPath IsEntry
wrapped-IsMessage = (
  omega arith,
  omega arith,
  omega arith,
  (
    omega arith,
    (
      instructions-IsInstructions,
      (omega arith, omega arith, omega arith, (refl, tt, (refl, tt))),
      omega arith,
      omega arith,
      tt,
      tt,
    ),
    tt,
    omega arith,
    omega arith,
  ),
)

depth_two : message_depth wrapped ≤ 2
unfolding message_depth
depth_two = omega arith

gen_message-parse_message_example :
    (gen_message reference_cookie sha256 gens wrapped ([] <> replicate 102 0 <> [], 0)
      ≡ ok (
        [] <> message_bytes sha256 layout wrapped <> [],
        0 + length (message_bytes sha256 layout wrapped),
      ))
    × (parse_message reference_nom sizes sha256 parsers 2
          (message_bytes sha256 layout wrapped <> (8 ∷ []))
        ≡ ok (8 ∷ [], wrapped))
gen_message-parse_message_example =
    gen_message-parse_message reference_nom reference_cookie sizes sha256 parsers gens layout
      wrapped 2 [] (replicate 102 0) [] (8 ∷ []) reads writes small wrapped-IsMessage depth_two
      wrapped_size

ntcp2_size : 95 ≡ length (ntcp2_bytes sha256 layout wrapped)
unfolding ntcp2_bytes payload_bytes framed_bytes reply_path_bytes entry_bytes instructions_bytes
    certificate_bytes be_bytes checksum clove_count message_type
ntcp2_size = refl

wrapped-IsNtcp2 : IsNtcp2 sizes sha256 layout wrapped
unfolding IsNtcp2
wrapped-IsNtcp2 = (omega arith, omega arith, unfold IsMessage in wrapped-IsMessage.3)

gen_ntcp2_message-ntcp2_message_example :
    (gen_ntcp2_message reference_cookie sha256 gens wrapped ([] <> replicate 95 0 <> [], 0)
      ≡ ok (
        [] <> ntcp2_bytes sha256 layout wrapped <> [],
        0 + length (ntcp2_bytes sha256 layout wrapped),
      ))
    × (ntcp2_message reference_nom sizes sha256 parsers 1
          (ntcp2_bytes sha256 layout wrapped <> (8 ∷ []))
        ≡ ok (8 ∷ [], to_seconds wrapped))
gen_ntcp2_message-ntcp2_message_example =
    gen_ntcp2_message-ntcp2_message reference_nom reference_cookie sizes sha256 parsers gens layout
      wrapped 1 [] (replicate 95 0) [] (8 ∷ []) reads writes small wrapped-IsNtcp2 depth_two
      ntcp2_size

wrong : checksum sha256 (1 ∷ 2 ∷ []) ≢ 6
unfolding checksum
wrong e = omega arith

parse_message-corrupt_example :
    (e : reference_nom.Err) × (parse_message reference_nom sizes sha256 parsers 1
        (header_bytes 10 4 5 2 6 <> (1 ∷ 2 ∷ []) <> [])
      ≡ err (error e))
parse_message-corrupt_example =
    parse_message-corrupt reference_nom sizes sha256 parsers 0 10 4 5 6 (1 ∷ 2 ∷ []) []
      (omega arith) (omega arith) (omega arith) (omega arith) (omega arith) wrong

gateway_size : 9 ≡ length (be_bytes 4 7 <> be_bytes 2 1 <> (8 ∷ []) <> (9 ∷ 9 ∷ []))
unfolding be_bytes
gateway_size = refl

gen_tunnel_gateway-parse_tunnel_gateway_example :
    (gen_tunnel_gateway reference_cookie
        (record { tid = 7; body = be_bytes 2 1 <> (8 ∷ []) <> (9 ∷ 9 ∷ []) })
        ([] <> replicate 9 0 <> [], 0)
      ≡ ok (
        [] <> (be_bytes 4 7 <> be_bytes 2 1 <> (8 ∷ []) <> (9 ∷ 9 ∷ [])) <> [],
        0 + length (be_bytes 4 7 <> be_bytes 2 1 <> (8 ∷ []) <> (9 ∷ 9 ∷ [])),
      ))
    × (parse_tunnel_gateway reference_nom {RI = Unit} {LS = Unit}
          ((be_bytes 4 7 <> be_bytes 2 1 <> (8 ∷ [])) <> (9 ∷ 9 ∷ []) <> [])
        ≡ ok ((9 ∷ 9 ∷ []) <> [], tunnel_gateway (record { tid = 7; body = 8 ∷ [] })))
gen_tunnel_gateway-parse_tunnel_gateway_example =
    gen_tunnel_gateway-parse_tunnel_gateway reference_nom reference_cookie Unit Unit 7 (8 ∷ [])
      (9 ∷ 9 ∷ []) [] (replicate 9 0) [] [] (omega arith) (omega arith) gateway_size

abbrev router_store : DatabaseStore Unit Unit
router_store = record { key = replicate 32 6; ds_type = 0; reply = none; payload = ri tt }

gen_message-unwritten_example :
    (gen_message reference_cookie sha256 gens
        (message 3 5000 (database_store router_store))
        (replicate 600 0, 0)
      ≢ ok (replicate 600 0, 300))
    × (gen_ntcp2_message reference_cookie sha256 gens
          (message 3 5000 (database_store router_store))
          (replicate 600 0, 0)
        ≢ ok (replicate 600 0, 300))
gen_message-unwritten_example =
    gen_message-unwritten reference_cookie sha256 gens tt refl 3 5000 router_store
      (replicate 600 0, 0) (replicate 600 0, 300) refl
