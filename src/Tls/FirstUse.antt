-- ===== src/Tls/FirstUse.antt =====
-- crates/wavekat-sip/src/stack/tls.rs with account.rs: a certificate that is refused, and then pinned.
use wavekat_sip.Base.{
  ℕ, ◌≡◌, ◌≢◌, refl, inl, inr, arith, Bool-cases, true, All, length, List, Option, none, some,
  text_eq, text_eq_refl, text_eq_sound,
}
use wavekat_sip.Account.{TlsPolicy, pinned, pinned_from_hex}
use wavekat_sip.Account.Fingerprint.{IsByte, deserialize-hex_of}
use wavekat_sip.Tls.{
  TlsError, invalid_certificate, other_tls, pin_mismatch, UntrustedCertificate, IoSource,
  from_rustls, from_connection, untrusted, presents, fingerprint_hex, report, concluded,
  verify_server_cert, recorded, connect, cert_failure,
}

report-recorded :
    (source : IoSource) (digest : List ℕ) (u : UntrustedCertificate)
    → report source (some digest) ≡ untrusted u
    → u.sha256 ≡ digest
unfolding report
report-recorded (from_rustls (invalid_certificate c)) digest u e = ground (arith, e)
report-recorded (from_rustls (other_tls text)) digest u e = ground (arith, e)
report-recorded (from_connection text) digest u e = ground (arith, e)

concluded-recorded :
    (digest : List ℕ) (verdict : Option TlsError) (rest : Option IoSource)
    (u : UntrustedCertificate)
    → concluded (some digest) verdict rest ≡ some (untrusted u)
    → u.sha256 ≡ digest
unfolding concluded
concluded-recorded digest (some e) rest u is =
    report-recorded (from_rustls e) digest u (ground (arith, is))
concluded-recorded digest none (some e) u is = report-recorded e digest u (ground (arith, is))
concluded-recorded digest none none u is = ground (arith, is)

module _ (sha256 : List ℕ → List ℕ) (platform : List ℕ → Option TlsError) where
  pin_accepts :
      (leaf : List ℕ)
      → connect sha256 platform true (pinned (sha256 leaf)) (presents leaf none) ≡ none
  unfolding connect verify_server_cert recorded concluded
  pin_accepts leaf = rw (text_eq_refl (sha256 leaf)) refl

  pin_refuses :
      (leaf other : List ℕ) (rest : Option IoSource)
      → sha256 other ≢ sha256 leaf
      → connect sha256 platform true (pinned (sha256 leaf)) (presents other rest)
        ≡ some (untrusted (record { sha256 = sha256 other; reason = pin_mismatch }))
  unfolding connect verify_server_cert recorded concluded report cert_failure
  pin_refuses leaf other rest differs = elim (Bool-cases (text_eq (sha256 other) (sha256 leaf))) [
    | inl e ↦ absurd (differs (text_eq_sound (sha256 other) (sha256 leaf) e))
    | inr e ↦ rw e refl
  ]

  -- A handshake is refused over a certificate, under any policy, and the consumer pins the
  -- fingerprint that the error shows as text. When a digest is 32 bytes, that text makes a policy.
  -- Under it the same certificate is accepted, and one with another digest is refused as a mismatch,
  -- whatever the platform says of it and whatever comes after; the error then shows its digest.
  pub refused_then_pinned :
      (policy : TlsPolicy) (leaf other : List ℕ) (rest rest' : Option IoSource)
      (u : UntrustedCertificate)
      → length (sha256 leaf) ≡ 32
      → All IsByte (sha256 leaf)
      → sha256 other ≢ sha256 leaf
      → connect sha256 platform true policy (presents leaf rest) ≡ some (untrusted u)
      → (pin : TlsPolicy) × (pinned_from_hex (fingerprint_hex u) ≡ some pin)
        × (connect sha256 platform true pin (presents leaf none) ≡ none)
        × (connect sha256 platform true pin (presents other rest')
            ≡ some (untrusted (record { sha256 = sha256 other; reason = pin_mismatch })))
  unfolding connect recorded
  refused_then_pinned policy leaf other rest rest' u len bytes differs is =
      let shown : u.sha256 ≡ sha256 leaf =
        concluded-recorded (sha256 leaf) (verify_server_cert sha256 platform policy leaf) rest u
          is in
      let (read, read', made) = deserialize-hex_of (sha256 leaf) len bytes in
      (pinned (sha256 leaf), rw shown made, pin_accepts leaf, pin_refuses leaf other rest' differs)
