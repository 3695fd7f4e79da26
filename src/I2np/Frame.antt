-- ===== src/I2np/Frame.antt =====
-- The payloads of src/i2np/frame.rs. `Parse` and `Generate` have the functions in the source's
-- order; what a lease set looks like, and most of a router info, is an interface here.
pub mod Parse
pub mod Generate
pub mod Layout
pub mod Flags
pub mod Optional
pub mod Leaves
pub mod Payloads
pub mod Written
pub mod Instructions
use ire.Prelude.{Option, Bytes}
use ire.Data.Frame.RouterInfo.{RouterInfoParts}
use ire.Wire.{Parser, Gen}
use ire.Wire.Nom.{Nom}
use ire.Wire.Cookie.{Cookie}

-- `compressed_ri` and `lease_set`.
pub record EntryParsers (nom : Nom) (RI LS : Type 0) : Type 0 where
  pub compressed_ri : Parser nom.Err Bytes RI
  pub lease_set : Parser nom.Err Bytes LS

-- What `gen_compressed_ri` generates a RouterInfo with, the crate flate2's `GzEncoder` from `write` to
-- `finish` (`none` is an error of either), and `gen_lease_set`.
pub record EntryGens (cf : Cookie) (RI LS : Type 0) : Type 0 where
  pub router_info_parts : RouterInfoParts cf RI
  pub gz_encode : Bytes → Option Bytes
  pub gen_lease_set : LS → Gen cf.GenError
