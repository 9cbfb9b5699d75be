-- ===== src/Grpc.antt =====
-- wolf/src/stream/http/grpc.rs: channels for a client, and the server.
--
-- tonic and the file system are the parameters `Transport` and `Host`. A path or an uri is its text.
pub mod Laws
mod Examples
use Prim.Native.String.{◌++◌ as ◌<>◌}
use wolf_engine.Base.{
  ℕ, Bool, true, false, not, List, Option, none, some, String, Result, ok, err, map_err, ◌>>=◌,
  if◌then◌else◌,
}

-- tonic's `Channel`, `Endpoint` and `ClientTlsConfig`. The world is all that a call may change.
pub record Transport (World : Type 0) : Type 1 where
  pub Endpoint : Type 0
  pub Channel : Type 0
  pub InvalidUri : Type 0
  pub TransportError : Type 0
  pub IoError : Type 0
  pub from_shared : String → Result InvalidUri Endpoint
  pub connect : World → Endpoint → World × Result TransportError Channel
  pub read_file : World → String → Result IoError (List ℕ)
  pub tls_config : Endpoint → List ℕ → String → Result TransportError Endpoint

module _ {World : Type 0} (t : Transport World) where
  open t use {
    Endpoint, Channel, InvalidUri, TransportError, IoError, from_shared, connect, read_file,
  }

  -- One constructor for each `bail!`, with what its text shows.
  pub data ChannelError : Type 0 where
    not_created : String → TransportError → ChannelError
    invalid_uri : String → InvalidUri → ChannelError
    tls_not_configured : String → TransportError → ChannelError
    certificate_not_loaded : IoError → ChannelError

  connect_to : World → String → Result InvalidUri Endpoint → World × Result ChannelError Channel
  connect_to w uri (ok endpoint) =
      let (w', r) = connect w endpoint in (w', map_err (not_created uri) r)
  connect_to w uri (err e) = (w, err (invalid_uri uri e))

  unfoldable pub create_channel : World → String → World × Result ChannelError Channel
  unfolding connect_to
  create_channel w uri = connect_to w uri (from_shared uri)

  unfoldable pub create_tls_endpoint :
      World → String → String → String → Result ChannelError Endpoint
  create_tls_endpoint w uri domain certificate =
      map_err certificate_not_loaded (read_file w certificate) >>= λ pem.
      map_err (invalid_uri uri) (from_shared uri) >>= λ endpoint.
      map_err (tls_not_configured uri) (t.tls_config endpoint pem domain)

  -- `uri` is the text of the endpoint's own uri
  unfoldable pub create_tls_channel :
      World → Endpoint → String → World × Result ChannelError Channel
  create_tls_channel w endpoint uri =
      let (w', r) = connect w endpoint in (w', map_err (not_created uri) r)

-- GrpcServerConfig. The five options are handed on as they are, so they are one value `Options`.
pub record ServerConfig (Options : Type 0) : Type 0 where
  pub address : String
  pub port : ℕ
  pub tls : Bool
  pub tls_certificate_path : Option String
  pub tls_private_key_path : Option String
  pub options : Options

-- What `run_server` needs of the host: the file system, and tonic's server, which takes the options,
-- the TLS configuration if there is one and the address, and serves until the shutdown signal. The
-- world is all that serving may change.
pub record Host (World Options : Type 0) : Type 1 where
  pub Addr : Type 0
  pub Tls : Type 0
  pub Failure : Type 0
  pub decimal : ℕ → String
  pub parse : String → Result Failure Addr
  pub exists : String → Bool
  pub read : String → Result Failure (List ℕ)
  pub server_tls : List ℕ → List ℕ → Result Failure Tls
  pub serve : World → Options → Option Tls → Addr → World × Result Failure (Unit {0})

abbrev pub path_or_empty : Option String → String
path_or_empty none = ""
path_or_empty (some p) = p

module _ {World Options : Type 0} (host : Host World Options) where
  open host use {Addr, Tls, Failure, decimal, parse, exists, read, server_tls, serve}

  pub data ServerError : Type 0 where
    failed : Failure → ServerError
    no_certificate no_private_key : ServerError
    not_served : Failure → ServerError

  unfoldable pub load_tls : ServerConfig Options → Result ServerError Tls
  load_tls config =
      let cert_path = path_or_empty config.tls_certificate_path in
      let key_path = path_or_empty config.tls_private_key_path in
      if not (exists cert_path)
      then err no_certificate
      else if not (exists key_path)
      then err no_private_key
      else map_err failed (read cert_path) >>= λ cert.
          map_err failed (read key_path) >>= λ key. map_err failed (server_tls cert key)

  -- How serving ends.
  unfoldable pub served : World × Result Failure (Unit {0}) → World × Result ServerError (Unit {0})
  served (w, r) = (w, map_err not_served r)

  unfoldable pub run_tls :
      World
      → ServerConfig Options
      → Addr
      → Result ServerError Tls
      → World × Result ServerError (Unit {0})
  unfolding served
  run_tls w config addr (err e) = (w, err e)
  run_tls w config addr (ok tls) = served (serve w config.options (some tls) addr)

  unfoldable pub run_at :
      World → ServerConfig Options → Result Failure Addr → World × Result ServerError (Unit {0})
  unfolding run_tls load_tls served
  run_at w config (err e) = (w, err (failed e))
  run_at w config (ok addr) =
      if config.tls
      then run_tls w config addr (load_tls config)
      else served (serve w config.options none addr)

  unfoldable pub run_server : World → ServerConfig Options → World × Result ServerError (Unit {0})
  unfolding run_at
  run_server w config = run_at w config (parse (config.address <> (":" <> decimal config.port)))
