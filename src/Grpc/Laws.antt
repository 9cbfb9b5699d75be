-- ===== src/Grpc/Laws.antt =====
-- When a server of wolf/src/stream/http/grpc.rs has served, and how its channels fail.
use Prim.Native.String.{◌++◌ as ◌<>◌}
use wolf_engine.Base.{
  ℕ, ◌≡◌, ◌∙◌, ap, refl, ◌⊎◌, inl, inr, map_err-ok, Bool, true, false, not, List, some, String,
  Result, ok, err, bind-ok, arith, if◌then◌else◌,
}
use wolf_engine.Grpc.{
  Host, ServerConfig, ServerError, no_certificate, no_private_key, failed, run_server, run_at,
  run_tls, load_tls, served, path_or_empty,
}

module _ {World Options : Type 0} (host : Host World Options) (config : ServerConfig Options) where
  abbrev pub cert_path : String
  cert_path = path_or_empty config.tls_certificate_path

  abbrev pub key_path : String
  key_path = path_or_empty config.tls_private_key_path

  -- A configuration that is made of the certificate and the key at the configured paths.
  pub record IsLoaded (tls : host.Tls) : Type 0 where
    pub cert : List ℕ
    pub key : List ℕ
    pub cert_exists : host.exists cert_path ≡ true
    pub key_exists : host.exists key_path ≡ true
    pub cert_read : host.read cert_path ≡ ok cert
    pub key_read : host.read key_path ≡ ok key
    pub identity : host.server_tls cert key ≡ ok tls

  -- What a server with TLS has gone through.
  pub record ServedTls (w : World) : Type 0 where
    pub addr : host.Addr
    pub tls : host.Tls
    pub parsed : host.parse (config.address <> (":" <> host.decimal config.port)) ≡ ok addr
    pub loaded : IsLoaded tls
    pub ends : run_server host w config ≡ served host (host.serve w config.options (some tls) addr)

  -- A guard that is passed.
  past_guard :
      (b : Bool) (r : Result (ServerError host) host.Tls) (e : ServerError host) (tls : host.Tls)
      → (if not b then err e else r) ≡ ok tls
      → (b ≡ true) × (r ≡ ok tls)
  past_guard true r e tls h = (refl, h)
  past_guard false r e tls h = ground arith

  load_tls-IsLoaded : (tls : host.Tls) → load_tls host config ≡ ok tls → IsLoaded tls
  unfolding load_tls
  load_tls-IsLoaded tls result =
      let (cert_exists, after1) = past_guard (host.exists cert_path) _ no_certificate tls result in
      let (key_exists, after2) = past_guard (host.exists key_path) _ no_private_key tls after1 in
      let (cert, cert_read, after3) = bind-ok failed (host.read cert_path) _ tls after2 in
      let (key, key_read, after4) = bind-ok failed (host.read key_path) _ tls after3 in
      record {
        cert = cert;
        key = key;
        cert_exists = cert_exists;
        key_exists = key_exists;
        cert_read = cert_read;
        key_read = key_read;
        identity = map_err-ok failed (host.server_tls cert key) tls after4;
      }

  Result-cases : {E A : Type 0} (r : Result E A) → ((e : E) × (r ≡ err e)) ⊎ ((a : A) × (r ≡ ok a))
  Result-cases (err e) = inl (e, refl)
  Result-cases (ok a) = inr (a, refl)

  at_addr :
      (w : World) (addr : host.Addr)
      → config.tls ≡ true
      → run_at host w config (ok addr) ≡ run_tls host w config addr (load_tls host config)
  unfolding run_at
  at_addr w addr tls = ground arith

  -- Whatever serving does to the world: a server that is configured with TLS either serves nothing and
  -- returns an error, or serves once, under a TLS configuration made of the certificate and the key
  -- that stand at the configured paths, both of which exist, and ends as that serving does. So it
  -- never serves without one.
  pub served_with_tls :
      (w : World)
      → config.tls ≡ true
      → ((e : ServerError host) × (run_server host w config ≡ (w, err e))) ⊎ ServedTls w
  unfolding run_server run_tls
  served_with_tls w tls =
      let text = config.address <> (":" <> host.decimal config.port) in
      elim (Result-cases (host.parse text)) [
        | inl (e, p) ↦ inl (failed e, ap (run_at host w config) p ∙ (unfold run_at in refl))
        | inr (addr, p) ↦
            let at = ap (run_at host w config) p ∙ at_addr w addr tls in
            elim (Result-cases (load_tls host config)) [
              | inl (e, l) ↦ inl (e, at ∙ ap (run_tls host w config addr) l)
              | inr (conf, l) ↦ inr (record {
                addr = addr;
                tls = conf;
                parsed = p;
                loaded = load_tls-IsLoaded conf l;
                ends = at ∙ ap (run_tls host w config addr) l;
              })
            ]
      ]
