-- ===== src/Tcp/Tls/Acceptor.antt =====
-- What `Tls::new` (wolf/src/stream/common/tls.rs) can end with.
use wolf_engine.Base.{
  ◌≡◌, ◌≢◌, List, [], ◌∷◌, Option, some, Result, ok, err, Outcome, returned, panicked, arith,
}
use wolf_engine.Tcp.Tls
use wolf_engine.Tcp.Tls.{
  Rustls, PrivateKeyType, Der, certificate_present, private_key_present, load_certs,
  load_private_keys,
}

module _ (lib : Rustls) where
  abbrev NoAcceptor : Outcome (Result (Tls.NewError lib) lib.Acceptor) → Type 0
  NoAcceptor (returned (ok a)) = ⊥
  NoAcceptor _ = Unit

  -- Both lists that are loaded are empty.
  abbrev AreEmpty : Result (Tls.NewError lib) (List Der × List Der) → Type 0
  AreEmpty (ok (cs, ks)) = (cs ≡ []) × (ks ≡ [])
  AreEmpty (err e) = Unit

  build-NoAcceptor :
      (r : Result (Tls.NewError lib) (List Der × List Der))
      → AreEmpty r
      → NoAcceptor (Tls.build lib r)
  unfolding Tls.build
  build-NoAcceptor (err e) h = tt
  build-NoAcceptor (ok (cs, [])) h = tt
  build-NoAcceptor (ok (cs, k ∷ ks)) h = ground arith

  load-AreEmpty :
      (certificate key : Option lib.FilePath) (type_ : Option PrivateKeyType)
      → AreEmpty (Tls.load lib certificate key type_)
  unfolding Tls.load
  load-AreEmpty certificate key type_ = ground arith

  -- `Tls::new` never gives an acceptor, whatever the paths, the files and the key type are: it
  -- returns an error or panics.
  pub new_never_ok :
      (certificate key : Option lib.FilePath) (type_ : Option PrivateKeyType) (a : lib.Acceptor)
      → Tls.new lib certificate key type_ ≢ returned (ok a)
  unfolding Tls.new
  new_never_ok certificate key type_ a e = ground (
    arith,
    build-NoAcceptor (Tls.load lib certificate key type_) (load-AreEmpty certificate key type_),
  )

  -- What comes of the certificates and the keys that are loaded.
  abbrev pub expected :
      Result (Tls.NewError lib) (List Der)
      → Result (Tls.NewError lib) (List Der)
      → Outcome (Result (Tls.NewError lib) lib.Acceptor)
  expected (err e) ks = returned (err e)
  expected (ok (c ∷ cs)) ks = returned (err certificate_present)
  expected (ok []) (err e) = returned (err e)
  expected (ok []) (ok (k ∷ ks)) = returned (err private_key_present)
  expected (ok []) (ok []) = panicked

  -- With both paths and a key type given, a certificate file that holds a certificate is refused as
  -- missing; where it holds none, a key file that holds a key is refused as missing, and one that
  -- holds none is a panic; a file that cannot be loaded is its error.
  pub new_by_files :
      (crt key : lib.FilePath) (type_ : PrivateKeyType)
      → Tls.new lib (some crt) (some key) (some type_)
        ≡ expected (load_certs lib crt) (load_private_keys lib key type_)
  unfolding Tls.new Tls.load Tls.build
  new_by_files crt key type_ = ground arith
