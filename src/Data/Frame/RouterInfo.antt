-- ===== src/Data/Frame/RouterInfo.antt =====
-- `gen_router_info` of src/data/frame.rs as far as its first field, the public key of the identity.
-- The generators of the later fields are an interface.
use ire.Prelude.{Option, none, some, List, [], ◌∷◌, Bytes, err}
use ire.Crypto.Frame.{gen_public_key}
use ire.Wire.{Gen, error}
use ire.Wire.Cookie.{Cookie}

-- The public key, and what is generated behind it: the rest of the identity, the rest of the
-- RouterInfo, and the signature if there is one.
pub record RouterInfoParts (cf : Cookie) (RI : Type 0) : Type 0 where
  pub public_key : RI → Bytes
  pub identity_rest : RI → List (Gen cf.GenError)
  pub info_rest : RI → List (Gen cf.GenError)
  pub signature : RI → Option (Gen cf.GenError)

module _ (cf : Cookie) {RI : Type 0} (parts : RouterInfoParts cf RI) where
  open cf use {GenError, custom_error, do_gen}

  unfoldable pub gen_router_identity : RI → Gen GenError
  gen_router_identity ri = do_gen (gen_public_key cf (parts.public_key ri) ∷ parts.identity_rest ri)

  unfoldable pub gen_router_info_minus_sig : RI → Gen GenError
  gen_router_info_minus_sig ri = do_gen (gen_router_identity ri ∷ parts.info_rest ri)

  unfoldable pub gen_signed : RI → Option (Gen GenError) → Gen GenError
  gen_signed ri none = λ s. err (error (custom_error 1))
  gen_signed ri (some gen_signature) = do_gen (gen_router_info_minus_sig ri ∷ gen_signature ∷ [])

  unfoldable pub gen_router_info : RI → Gen GenError
  gen_router_info ri = gen_signed ri (parts.signature ri)
