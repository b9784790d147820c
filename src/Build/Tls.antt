-- ===== src/Build/Tls.antt =====
-- Which TLS configuration a client is built with.
use koanf_etcd.Base.{
  Bool, true, false, not, ◌&&◌, ◌||◌, Option, none, some, [], ◌∷◌, Bytes, is_empty, ◌≡◌, ◌⊎◌, inl,
  inr, arith, Bool-cases, Option-cases, if◌then◌else◌,
}
use koanf_etcd.Errors.{ok, or_wrap, bind-ok, or_wrap-ok, load_keypair, read_ca}
use koanf_etcd.Settings.{Settings, Handle, TlsConfig}
use koanf_etcd.Build.{
  World, tls_12, load_certificate, load_ca, pool_or_error, load_tls_from_files, from_files,
  choose_tls, named,
}

module _ {V : Type 0} (w : World) (s : Settings V) where
  -- The name that replaces the one of a TLS configuration.
  abbrev pub name_or : Bytes → Bytes
  name_or name = if is_empty s.tls_server_name then name else s.tls_server_name

  -- The client certificate: from the two files, or none where one of them is not given.
  abbrev pub HasCertificate : TlsConfig → Type 0
  HasCertificate t =
      ((h : Handle) × (w.load_key_pair s.tls_cert_file s.tls_key_file ≡ ok h)
        × (t.certificates ≡ h ∷ []))
      ⊎ (((is_empty s.tls_cert_file ≡ true) ⊎ (is_empty s.tls_key_file ≡ true))
          × (t.certificates ≡ []))

  -- The trusted authorities: from the file, or those of the system.
  abbrev pub HasAuthorities : TlsConfig → Type 0
  HasAuthorities t =
      ((text : Bytes) × (pool : Handle) × (w.read_file s.tls_ca_file ≡ ok text)
        × (w.pool_of text ≡ some pool)
        × (t.root_cas ≡ some pool))
      ⊎ ((is_empty s.tls_ca_file ≡ true) × (t.root_cas ≡ none))

  abbrev pub no_files : Bool
  no_files = is_empty s.tls_cert_file && (is_empty s.tls_key_file && is_empty s.tls_ca_file)

  -- The caller's TLS configuration with the server name; or one of TLS 1.2 at least from the files;
  -- or none.
  abbrev pub HasTls : Option TlsConfig → Type 0
  HasTls tls =
      ((c : TlsConfig) × (s.tls_cfg ≡ some c)
        × (tls ≡ some (record c { server_name = name_or c.server_name })))
      ⊎ (((t : TlsConfig) × (s.tls_cfg ≡ none)
            × (tls ≡ some t)
            × (no_files ≡ false)
            × (t.min_version ≡ 0x0303)
            × (t.server_name ≡ s.tls_server_name)
            × HasCertificate t
            × HasAuthorities t)
          ⊎ ((s.tls_cfg ≡ none) × (no_files ≡ true) × (tls ≡ none)))

  -- A configuration of TLS 1.2 at least that names no server.
  abbrev pub IsPlain : TlsConfig → Type 0
  IsPlain t = (t.min_version ≡ 0x0303) × (t.server_name ≡ [])

  load_certificate_lem :
      (t : TlsConfig)
      → load_certificate w s.tls_cert_file s.tls_key_file (tls_12 w) ≡ ok t
      → IsPlain t × HasCertificate t × (t.root_cas ≡ none)
  unfolding load_certificate
  load_certificate_lem t h =
      elim (Bool-cases (not (is_empty s.tls_cert_file) && not (is_empty s.tls_key_file))) [
        | inl both ↦
            let (k, loaded, made) = bind-ok (or_wrap load_keypair _) _ (simp both at h) in
            let read = or_wrap-ok load_keypair _ loaded in
            ((ground arith, ground arith), inl (k, read, ground arith), ground arith)
        | inr one ↦ ((ground arith, ground arith), inr (ground arith, ground arith), ground arith)
      ]

  pool_or_error-ok : (o : Option Handle) (p : Handle) → pool_or_error w o ≡ ok p → o ≡ some p
  unfolding pool_or_error
  pool_or_error-ok o p h = ground arith

  load_ca_lem :
      (t u : TlsConfig)
      → IsPlain t × HasCertificate t × (t.root_cas ≡ none)
      → load_ca w s.tls_ca_file t ≡ ok u
      → IsPlain u × HasCertificate u × HasAuthorities u
  unfolding load_ca
  load_ca_lem t u (plain, certificate, bare) h = elim (Bool-cases (not (is_empty s.tls_ca_file))) [
    | inl given ↦
        let (text, read, rest) = bind-ok (or_wrap read_ca _) _ (simp given at h) in
        let (pool, found, made) = bind-ok (pool_or_error w (w.pool_of text)) _ rest in
        let text_read = or_wrap-ok read_ca _ read in
        let pool_found = pool_or_error-ok (w.pool_of text) pool found in
        (ground arith, ground arith, inl (text, pool, text_read, pool_found, ground arith))
    | inr absent ↦ (ground arith, ground arith, inr (ground arith, ground arith))
  ]

  load_tls_from_files_lem :
      (t : TlsConfig)
      → load_tls_from_files w s.tls_cert_file s.tls_key_file s.tls_ca_file ≡ ok t
      → IsPlain t × HasCertificate t × HasAuthorities t
  unfolding load_tls_from_files
  load_tls_from_files_lem t h =
      let (bare, first, second) = bind-ok (load_certificate w _ _ (tls_12 w)) _ h in
      load_ca_lem bare t (load_certificate_lem bare first) second

  -- What was chosen, before the server name is put in.
  abbrev pub IsChosen : Option TlsConfig → Type 0
  IsChosen tls =
      ((c : TlsConfig) × (s.tls_cfg ≡ some c) × (tls ≡ some c))
      ⊎ (((t : TlsConfig) × (s.tls_cfg ≡ none)
            × (tls ≡ some t)
            × (no_files ≡ false)
            × IsPlain t
            × HasCertificate t
            × HasAuthorities t)
          ⊎ ((s.tls_cfg ≡ none) × (no_files ≡ true) × (tls ≡ none)))

  from_files_lem :
      (tls : Option TlsConfig) → s.tls_cfg ≡ none → from_files w s ≡ ok tls → IsChosen tls
  unfolding from_files
  from_files_lem tls own h = elim (Bool-cases no_files) [
    | inl nothing ↦ inr (inr (own, nothing, ground arith))
    | inr something ↦
        let test : (not (is_empty s.tls_cert_file)
              || (not (is_empty s.tls_key_file) || not (is_empty s.tls_ca_file)))
            ≡ true =
          ground arith in
        let (t, loaded, made) = bind-ok (load_tls_from_files w _ _ _) _ (simp test at h) in
        let (plain, certificate, authorities) = load_tls_from_files_lem t loaded in
        inr (inl (t, own, ground arith, something, plain, certificate, authorities))
  ]

  pub choose_tls_lem : (tls : Option TlsConfig) → choose_tls w s ≡ ok tls → IsChosen tls
  unfolding choose_tls
  choose_tls_lem tls h = elim (Option-cases s.tls_cfg) [
    | inl own ↦ from_files_lem tls own (rw own at h)
    | inr (c, given) ↦ inl (c, given, ground arith)
  ]

  pub named_lem : (tls : Option TlsConfig) → IsChosen tls → HasTls (named w s tls)
  unfolding named
  named_lem tls (inl (c, given, chosen)) = inl (c, given, ground arith)
  named_lem tls (inr (inl (t, own, chosen, files, (version, name), certificate, authorities))) =
      inr (
        inl (
          record t { server_name = name_or t.server_name },
          own,
          ground arith,
          files,
          version,
          ground arith,
          certificate,
          authorities,
        ))
  named_lem tls (inr (inr (own, files, nothing))) = inr (inr (own, files, ground arith))
