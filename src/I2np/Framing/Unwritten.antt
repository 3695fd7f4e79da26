-- ===== src/I2np/Framing/Unwritten.antt =====
-- Stores of a RouterInfo: `gen_compressed_ri` of src/i2np/frame.rs generates the RouterInfo into a
-- Vec of no bytes.
use ire.Prelude.{
  ℕ, ◌≡◌, ◌≢◌, refl, sym, ◌∙◌, Option, none, some, List, [], ◌∷◌, Bytes, length, Result, ok, err,
  ◌>>=◌, arith,
}
use ire.Crypto.Frame.{gen_public_key}
use ire.Data.Frame.RouterInfo.{
  RouterInfoParts, gen_router_identity, gen_router_info_minus_sig, gen_signed, gen_router_info,
}
use ire.I2np.{DatabaseStoreData, DatabaseStore, ri, message, database_store}
use ire.I2np.Frame.{EntryGens}
use ire.I2np.Frame.Generate.{gen_compressed_ri, gen_database_store_data, gen_database_store}
use ire.I2np.Framing.{payload_then_header, framed, gen_message, gen_payload, gen_ntcp2_message}
use ire.Wire.{Gen}
use ire.Wire.Cookie.{Cookie}

-- A generator that fails on every buffer.
abbrev pub NeverWrites : {E : Type 0} → Gen E → Type 0
NeverWrites g = (s out : Bytes × ℕ) → g s ≢ ok out

-- What follows an error is not reached.
bind-err :
    {E A B : Type 0} (m : Result E A) (k : A → Result E B)
    → ((a : A) → m ≢ ok a)
    → (b : B) → (m >>= k) ≢ ok b
bind-err (ok a) k h b e = h a refl
bind-err (err x) k h b e = cc

bind-fails :
    {E A B : Type 0} (m : Result E A) (k : A → Result E B)
    → ((a : A) (b : B) → k a ≢ ok b)
    → (b : B) → (m >>= k) ≢ ok b
bind-fails (ok a) k h b e = h a b e
bind-fails (err x) k h b e = cc

module _ (cf : Cookie) where
  do_gen-first :
      (g : Gen cf.GenError) (gs : List (Gen cf.GenError))
      → NeverWrites g
      → NeverWrites (cf.do_gen (g ∷ gs))
  do_gen-first g gs h s out e =
      bind-err (g s) (cf.do_gen gs) (h s) out (sym (cf.do_gen_cons g gs s) ∙ e)

  do_gen-later :
      (g : Gen cf.GenError) (gs : List (Gen cf.GenError))
      → NeverWrites (cf.do_gen gs)
      → NeverWrites (cf.do_gen (g ∷ gs))
  do_gen-later g gs h s out e =
      bind-fails (g s) (cf.do_gen gs) h out (sym (cf.do_gen_cons g gs s) ∙ e)

  label-fails : (f : ℕ → Gen cf.GenError) → ((n : ℕ) → NeverWrites (f n)) → NeverWrites (cf.label f)
  label-fails f h s out e = h s.1 s out (sym (cf.label_eq f s.0 s.1) ∙ e)

  do_gen-empty :
      (g : Gen cf.GenError) (gs : List (Gen cf.GenError)) (n : ℕ)
      → ((out : Bytes × ℕ) → g ([], n) ≢ ok out)
      → (out : Bytes × ℕ) → cf.do_gen (g ∷ gs) ([], n) ≢ ok out
  do_gen-empty g gs n h out e =
      bind-err (g ([], n)) (cf.do_gen gs) h out (sym (cf.do_gen_cons g gs ([], n)) ∙ e)

  module _ {RI : Type 0} (parts : RouterInfoParts cf RI) (r : RI)
      (key : length (parts.public_key r) ≡ 256) where
    -- A buffer of no bytes has no room for the public key.
    identity-empty : (out : Bytes × ℕ) → gen_router_identity cf parts r ([], 0) ≢ ok out
    unfolding gen_router_identity gen_public_key
    identity-empty =
        do_gen-empty (cf.slice (parts.public_key r)) (parts.identity_rest r) 0 (λ out e.
          let (x, short) = cf.slice_short (parts.public_key r) [] 0 (omega (arith, key)) in
          cc (short, e))

    signed-empty :
        (o : Option (Gen cf.GenError)) (out : Bytes × ℕ) → gen_signed cf parts r o ([], 0) ≢ ok out
    unfolding gen_signed gen_router_info_minus_sig
    signed-empty none out e = cc
    signed-empty (some gen_signature) out e =
        do_gen-empty _ (gen_signature ∷ []) 0 (do_gen-empty _ (parts.info_rest r) 0 identity-empty)
          out e

  module _ (sha256 : Bytes → Bytes) {RI LS : Type 0} (entries : EntryGens cf RI LS) (r : RI)
      (key : length (entries.router_info_parts.public_key r) ≡ 256) where
    compressed_ri-fails : NeverWrites (gen_compressed_ri cf entries r)
    unfolding gen_compressed_ri gen_router_info
    compressed_ri-fails s =
        bind-err _ _
          (signed-empty entries.router_info_parts r key (entries.router_info_parts.signature r))

    data-fails :
        (d : DatabaseStoreData RI LS)
        → d ≡ ri r
        → NeverWrites (gen_database_store_data cf entries d)
    unfolding gen_database_store_data
    data-fails d e = rw e compressed_ri-fails

    payload-fails :
        (ds : DatabaseStore RI LS)
        → ds.payload ≡ ri r
        → NeverWrites (gen_payload cf sha256 entries (database_store ds))
    unfolding gen_payload gen_database_store
    payload-fails ds e =
        do_gen-later _ _
          (do_gen-later _ _ (do_gen-later _ _ (do_gen-first _ _ (data-fails ds.payload e))))

    framed-fails : (g : Gen cf.GenError) → NeverWrites g → NeverWrites (framed cf sha256 g)
    unfolding framed payload_then_header
    framed-fails g h = label-fails _ (λ size. do_gen-later _ _ (
        do_gen-first _ _ (
          label-fails _ (λ cs.
            do_gen-later _ _ (do_gen-first _ _ (label-fails _ (λ start. do_gen-first _ _ h)))))))

    -- A message that stores a RouterInfo, whose public key has its 256 bytes, is written in neither
    -- frame, whatever the buffer and the compression: both generators fail.
    pub gen_message-unwritten :
        (id expiration : ℕ) (ds : DatabaseStore RI LS) (s out : Bytes × ℕ)
        → ds.payload ≡ ri r
        → (gen_message cf sha256 entries (message id expiration (database_store ds)) s ≢ ok out)
          × (gen_ntcp2_message cf sha256 entries (message id expiration (database_store ds)) s
              ≢ ok out)
    unfolding gen_message gen_ntcp2_message
    gen_message-unwritten id expiration ds s out e = (
      do_gen-later _ _
          (do_gen-later _ _
            (do_gen-later _ _ (do_gen-first _ _ (framed-fails _ (payload-fails ds e)))))
          s out,
      do_gen-later _ _ (do_gen-later _ _ (do_gen-later _ _ (do_gen-first _ _ (payload-fails ds e))))
          s out,
    )
