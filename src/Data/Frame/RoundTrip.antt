-- ===== src/Data/Frame/RoundTrip.antt =====
-- What src/data/frame.rs generates is what it parses.
use Prim.Native.Nat.{◌^◌}
use ire.Prelude.{
  ℕ, ◌+◌, ◌*◌, ◌/◌, ◌%◌, ◌<◌, ◌≡◌, refl, sym, ap, arith, [], ◌∷◌, Bytes, length, length-append,
  append_assoc, subst, ok,
}
use ire.Crypto.{CurveSizes, enc_type_code, sig_type_code}
use ire.Crypto.Frame.{sig_type-Reads, enc_type-Reads, gen_sig_type-Writes, gen_enc_type-Writes}
use ire.Crypto.Lengths.{extra_data_len-le, enc_extra_data_len-eq}
use ire.Data.{KeyCertificate, Certificate}
use ire.Data.Frame.{
  hash, i2p_date, short_expiry, session_tag, tunnel_id, key_certificate, key_certificate_data,
  certificate, certificate_of, gen_hash, gen_i2p_date, gen_short_expiry, gen_session_tag,
  gen_tunnel_id, gen_key_certificate, gen_certificate,
}
use ire.Data.Frame.Encoding.{counted, key_certificate_bytes, certificate_bytes, IsEncodable}
use ire.Wire.{◌<>◌, be_bytes, Parser}
use ire.Wire.BigEndian.{length-be_bytes}
use ire.Wire.Nom.{Nom}
use ire.Wire.Cookie.{Cookie}
use ire.Wire.Reads.{
  Reads, Reads-bytes, Reads-bind, map-Reads, take-Reads, tag-Reads, be_u8-Reads, be_u16-Reads,
  be_u32-Reads, be_u64-Reads, pair-Reads, length_data-Reads, length_value-Reads,
}
use ire.Wire.Writes.{
  Writes, Writes-bytes, slice-Writes, be_u8-Writes, be_u16-Writes, be_u32-Writes, be_u64-Writes,
  do_gen-Writes, do_gen-Writes_last,
}
use ire.Wire.Sized.{sized-Writes}

module _ (nom : Nom) where
  pub hash-Reads : (h : Bytes) → length h ≡ 32 → Reads (hash nom) h h
  unfolding hash
  hash-Reads h l = map-Reads nom _ (take-Reads nom 32 h l)

  pub session_tag-Reads : (t : Bytes) → length t ≡ 32 → Reads (session_tag nom) t t
  unfolding session_tag
  session_tag-Reads t l = map-Reads nom _ (take-Reads nom 32 t l)

  pub i2p_date-Reads : (n : ℕ) → n < 2 ^ 64 → Reads (i2p_date nom) (be_bytes 8 n) n
  unfolding i2p_date
  i2p_date-Reads n l = map-Reads nom _ (be_u64-Reads nom n l)

  pub tunnel_id-Reads : (n : ℕ) → n < 2 ^ 32 → Reads (tunnel_id nom) (be_bytes 4 n) n
  unfolding tunnel_id
  tunnel_id-Reads n l = map-Reads nom _ (be_u32-Reads nom n l)

  pub short_expiry-Reads :
      (n : ℕ)
      → n / 1000 < 2 ^ 32
      → Reads (short_expiry nom) (be_bytes 4 (n / 1000)) (n / 1000 * 1000)
  unfolding short_expiry
  short_expiry-Reads n l = map-Reads nom _ (be_u32-Reads nom (n / 1000) l)

  pub payload-Reads :
      (payload : Bytes)
      → length payload < 65536
      → Reads (nom.length_data nom.be_u16) (counted payload) payload
  payload-Reads payload l = length_data-Reads nom payload (be_u16-Reads nom (length payload) l)

module _ (cf : Cookie) where
  pub gen_hash-Writes : (h : Bytes) → Writes (gen_hash cf h) h
  unfolding gen_hash
  gen_hash-Writes h = slice-Writes cf h

  pub gen_session_tag-Writes : (t : Bytes) → Writes (gen_session_tag cf t) t
  unfolding gen_session_tag
  gen_session_tag-Writes t = slice-Writes cf t

  pub gen_i2p_date-Writes : (n : ℕ) → Writes (gen_i2p_date cf n) (be_bytes 8 n)
  unfolding gen_i2p_date
  gen_i2p_date-Writes n = be_u64-Writes cf n

  pub gen_tunnel_id-Writes : (n : ℕ) → Writes (gen_tunnel_id cf n) (be_bytes 4 n)
  unfolding gen_tunnel_id
  gen_tunnel_id-Writes n = be_u32-Writes cf n

  pub gen_short_expiry-Writes : (n : ℕ) → Writes (gen_short_expiry cf n) (be_bytes 4 (n / 1000))
  unfolding gen_short_expiry
  gen_short_expiry-Writes n = be_u32-Writes cf (n / 1000)

  -- A length cast to a width that it fits.
  pub be_u16_cast-Writes : (n : ℕ) → n < 65536 → Writes (cf.be_u16 (n % 65536)) (be_bytes 2 n)
  be_u16_cast-Writes n l =
      let e : n % 65536 ≡ n = omega arith in
      Writes-bytes (ap (be_bytes 2) e) (be_u16-Writes cf (n % 65536))

  pub be_u8_cast-Writes : (n : ℕ) → n < 256 → Writes (cf.be_u8 (n % 256)) (be_bytes 1 n)
  be_u8_cast-Writes n l =
      let e : n % 256 ≡ n = omega arith in
      Writes-bytes (ap (be_bytes 1) e) (be_u8-Writes cf (n % 256))

  gen_key_certificate-Writes :
      (kc : KeyCertificate) → Writes (gen_key_certificate cf kc) (key_certificate_bytes kc)
  unfolding gen_key_certificate key_certificate_bytes
  gen_key_certificate-Writes kc = do_gen-Writes cf (gen_sig_type-Writes cf kc.sig_type) (
      do_gen-Writes cf (gen_enc_type-Writes cf kc.enc_type) (
        do_gen-Writes cf (slice-Writes cf kc.sig_data)
          (do_gen-Writes_last cf (slice-Writes cf kc.enc_data))))

  gen_payload-Writes :
      (code : ℕ) (payload : Bytes)
      → length payload < 65536
      → Writes
          (cf.do_gen (cf.be_u8 code ∷ cf.be_u16 (length payload % 65536) ∷ cf.slice payload ∷ []))
          (be_bytes 1 code <> counted payload)
  gen_payload-Writes code payload l = do_gen-Writes cf (be_u8-Writes cf code) (
      do_gen-Writes cf (be_u16_cast-Writes (length payload) l)
        (do_gen-Writes_last cf (slice-Writes cf payload)))

  gen_empty-Writes :
      (code : ℕ)
      → Writes (cf.do_gen (cf.be_u8 code ∷ cf.be_u16 0 ∷ [])) (be_bytes 1 code <> be_bytes 2 0)
  gen_empty-Writes code =
      do_gen-Writes cf (be_u8-Writes cf code) (do_gen-Writes_last cf (be_u16-Writes cf 0))

  pub gen_certificate-Writes :
      (sizes : CurveSizes) (cert : Certificate)
      → IsEncodable sizes cert
      → Writes (gen_certificate cf cert) (certificate_bytes cert)
  unfolding gen_certificate certificate_bytes IsEncodable
  gen_certificate-Writes sizes Certificate.null h = gen_empty-Writes 0
  gen_certificate-Writes sizes (Certificate.hash_cash payload) h = gen_payload-Writes 1 payload h
  gen_certificate-Writes sizes Certificate.hidden h = gen_empty-Writes 2
  gen_certificate-Writes sizes (Certificate.signed payload) h = gen_payload-Writes 3 payload h
  gen_certificate-Writes sizes (Certificate.multiple payload) h = gen_payload-Writes 4 payload h
  gen_certificate-Writes sizes (Certificate.key kc) h =
      do_gen-Writes cf (be_u8-Writes cf 5)
        (do_gen-Writes_last cf (sized-Writes cf (gen_key_certificate-Writes kc)))

module _ (nom : Nom) (sizes : CurveSizes) where
  key_certificate_data-Reads :
      (kc : KeyCertificate)
      → IsEncodable sizes (Certificate.key kc)
      → Reads
          (key_certificate_data nom sizes (kc.sig_type, kc.enc_type))
          (kc.sig_data <> kc.enc_data)
          kc
  unfolding key_certificate_data IsEncodable
  key_certificate_data-Reads kc h =
      map-Reads nom _
        (pair-Reads nom (take-Reads nom _ kc.sig_data h.0) (take-Reads nom _ kc.enc_data h.1))

  key_certificate-Reads :
      (kc : KeyCertificate)
      → IsEncodable sizes (Certificate.key kc)
      → Reads (key_certificate nom sizes) (key_certificate_bytes kc) kc
  unfolding key_certificate key_certificate_bytes
  key_certificate-Reads kc h =
      let types = be_bytes 2 (sig_type_code kc.sig_type) in
      Reads-bytes
        (append_assoc types (be_bytes 2 (enc_type_code kc.enc_type)) (kc.sig_data <> kc.enc_data))
        (Reads-bind (key_certificate_data nom sizes)
          (pair-Reads nom (sig_type-Reads nom kc.sig_type) (enc_type-Reads nom kc.enc_type))
          (key_certificate_data-Reads kc h))

  key_certificate_bytes-lt :
      (kc : KeyCertificate)
      → IsEncodable sizes (Certificate.key kc)
      → length (key_certificate_bytes kc) < 65536
  unfolding IsEncodable key_certificate_bytes
  key_certificate_bytes-lt kc h =
      let t = be_bytes 2 (sig_type_code kc.sig_type) in
      let e = be_bytes 2 (enc_type_code kc.enc_type) in
      omega (
        arith,
        h,
        extra_data_len-le sizes kc.sig_type kc.enc_type,
        enc_extra_data_len-eq kc.enc_type kc.sig_type,
        length-be_bytes 2 (sig_type_code kc.sig_type),
        length-be_bytes 2 (enc_type_code kc.enc_type),
        length-append kc.sig_data kc.enc_data,
        length-append e (kc.sig_data <> kc.enc_data),
        length-append t (e <> kc.sig_data <> kc.enc_data),
      )

  zeros-Reads : Reads (nom.tag (0 ∷ 0 ∷ [])) (be_bytes 2 0) (0 ∷ 0 ∷ [])
  unfolding be_bytes
  zeros-Reads = tag-Reads nom (0 ∷ 0 ∷ [])

  counted_after :
      (code : ℕ) {p : Parser nom.Err Bytes Certificate} {bs : Bytes} {cert : Certificate}
      → code < 256
      → certificate_of nom sizes code ≡ p
      → Reads p bs cert
      → Reads (certificate nom sizes) (be_bytes 1 code <> bs) cert
  unfolding certificate
  counted_after code {p} {bs} {cert} l e r =
      Reads-bind (certificate_of nom sizes) (be_u8-Reads nom code l)
        (subst (λ q. Reads q bs cert) (sym e) r)

  pub certificate-Reads :
      (cert : Certificate)
      → IsEncodable sizes cert
      → Reads (certificate nom sizes) (certificate_bytes cert) cert
  unfolding certificate_of certificate_bytes
  certificate-Reads Certificate.null h =
      counted_after 0 (omega arith) refl (map-Reads nom _ zeros-Reads)
  certificate-Reads (Certificate.hash_cash payload) h =
      counted_after 1 (omega arith) refl
        (map-Reads nom _ (payload-Reads nom payload (unfold IsEncodable in h)))
  certificate-Reads Certificate.hidden h =
      counted_after 2 (omega arith) refl (map-Reads nom _ zeros-Reads)
  certificate-Reads (Certificate.signed payload) h =
      counted_after 3 (omega arith) refl
        (map-Reads nom _ (payload-Reads nom payload (unfold IsEncodable in h)))
  certificate-Reads (Certificate.multiple payload) h =
      counted_after 4 (omega arith) refl
        (map-Reads nom _ (payload-Reads nom payload (unfold IsEncodable in h)))
  certificate-Reads (Certificate.key kc) h = counted_after 5 (omega arith) refl (
      map-Reads nom _ (
        length_value-Reads nom (key_certificate_bytes kc)
          (be_u16-Reads nom _ (key_certificate_bytes-lt kc h)) (key_certificate-Reads kc h)))

-- A certificate whose payload fits the length field is written to the buffer as its layout, and
-- reading that, with anything behind it, gives the certificate back.
pub gen_certificate-certificate :
    (nom : Nom) (cf : Cookie) (sizes : CurveSizes) (cert : Certificate) (pre old post rest : Bytes)
    → IsEncodable sizes cert
    → length old ≡ length (certificate_bytes cert)
    → (gen_certificate cf cert (pre <> old <> post, length pre)
        ≡ ok (pre <> certificate_bytes cert <> post, length pre + length (certificate_bytes cert)))
      × (certificate nom sizes (certificate_bytes cert <> rest) ≡ ok (rest, cert))
gen_certificate-certificate nom cf sizes cert pre old post rest h l = (
  (gen_certificate-Writes cf sizes cert h).at pre old post l,
  (certificate-Reads nom sizes cert h).at rest,
)
