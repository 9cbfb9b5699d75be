-- ===== src/Tcp/Tls.antt =====
-- wolf/src/stream/common/tls.rs: the certificate, the private key and the acceptor of a TLS server.
--
-- The file system, rustls_pemfile and rustls are the parameter `Rustls`.
pub mod Acceptor
use wolf_engine.Base.{
  List, [], ◌∷◌, Option, none, some, Result, ok, err, map_err, map_ok, ◌>>=◌, Outcome, returned,
  panicked, ℕ,
}

pub data PrivateKeyType : Type 0 where
  pkcs8 rsa : PrivateKeyType

-- A certificate or a key is the bytes that the PEM file holds for it.
abbrev pub Der : Type 0
Der = List ℕ

pub record Rustls : Type 1 where
  pub FilePath : Type 0
  pub File : Type 0
  pub IoError : Type 0
  pub TlsError : Type 0
  pub Acceptor : Type 0
  pub open_file : FilePath → Result IoError File
  pub certs : File → Result IoError (List Der)
  pub pkcs8_private_keys : File → Result IoError (List Der)
  pub rsa_private_keys : File → Result IoError (List Der)
  pub with_single_cert : List Der → Der → Result TlsError Acceptor

module _ (lib : Rustls) where
  open lib use {
    FilePath, File, IoError, TlsError, Acceptor, open_file, certs, pkcs8_private_keys,
    rsa_private_keys, with_single_cert,
  }

  -- The errors of `Tls::new`, one for each text.
  pub data NewError : Type 0 where
    no_certificate_path no_private_key_path no_private_type : NewError
    certificate_present private_key_present : NewError
    certs_not_loaded : IoError → NewError
    keys_not_loaded : IoError → NewError
    config_not_built : TlsError → NewError

  unfoldable pub load_certs : FilePath → Result NewError (List Der)
  load_certs path = map_err certs_not_loaded (open_file path >>= λ f. certs f)

  keys_of : PrivateKeyType → File → Result IoError (List Der)
  keys_of pkcs8 f = pkcs8_private_keys f
  keys_of rsa f = rsa_private_keys f

  unfoldable pub load_private_keys : FilePath → PrivateKeyType → Result NewError (List Der)
  unfolding keys_of
  load_private_keys path type_ = map_err keys_not_loaded (open_file path >>= λ f. keys_of type_ f)

  abbrev pub ok_or : {A : Type 0} → Option A → NewError → Result NewError A
  ok_or none e = err e
  ok_or (some a) e = ok a

  -- `ensure!(xs.is_empty(), ..)`: what goes on is the empty list.
  abbrev pub ensure_empty : List Der → NewError → Result NewError (List Der)
  ensure_empty [] e = ok []
  ensure_empty (x ∷ xs) e = err e

  -- What is there when the configuration is built.
  unfoldable pub load :
      Option FilePath
      → Option FilePath
      → Option PrivateKeyType
      → Result NewError (List Der × List Der)
  load certificate key type_ = ok_or certificate no_certificate_path >>= λ crt.
      load_certs crt >>= λ cs. ensure_empty cs certificate_present >>= λ cs'.
      ok_or key no_private_key_path >>= λ k. ok_or type_ no_private_type >>= λ ty.
      load_private_keys k ty >>= λ ks. ensure_empty ks private_key_present >>= λ ks'. ok (cs', ks')

  -- `keys.remove(0)` panics on an empty vector.
  unfoldable pub build : Result NewError (List Der × List Der) → Outcome (Result NewError Acceptor)
  build (err e) = returned (err e)
  build (ok (cs, [])) = panicked
  build (ok (cs, k ∷ ks)) = returned (map_err config_not_built (with_single_cert cs k))

  -- Tls::new
  unfoldable pub new :
      Option FilePath → Option FilePath → Option PrivateKeyType → Outcome (Result NewError Acceptor)
  unfolding build
  new certificate key type_ = build (load certificate key type_)
