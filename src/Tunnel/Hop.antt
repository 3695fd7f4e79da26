-- ===== src/Tunnel/Hop.antt =====
-- The data types of src/tunnel.rs that describe a hop.
use ire.Prelude.{ℕ}
use ire.Data.{Hash, TunnelId}

-- `RI` is RouterInfo and `C` is LayerCipher.
pub data HopData (RI : Type 0) : Type 0 where
  inbound_gateway : RI × TunnelId → HopData RI
  intermediate : Hash → RI × TunnelId → HopData RI
  outbound_endpoint : Hash → HopData RI

-- `expires` is a SystemTime, in nanoseconds.
pub record HopConfig (RI C : Type 0) : Type 0 where
  pub hop_data : HopData RI
  pub layer_cipher : C
  pub expires : ℕ
