-- ===== src/Grpc/Examples.antt =====
-- The theorem about wolf/src/stream/http/grpc.rs at a concrete input.
use wolf_engine.Base.{ℕ, ◌≡◌, ◌⊎◌, refl, true, List, [], ◌∷◌, Option, some, ok, err}
use wolf_engine.Grpc.{Host, ServerConfig, ServerError, run_server}
use wolf_engine.Grpc.Laws.{ServedTls, served_with_tls}

abbrev host : Host (List (Option ℕ)) ℕ
host = record {
  Addr = ℕ;
  Tls = ℕ;
  Failure = Unit {0};
  decimal = λ n. "7777";
  parse = λ s. ok 1;
  exists = λ path. true;
  read = λ path. ok (1 ∷ []);
  server_tls = λ cert key. ok 2;
  serve = λ w options tls addr. (tls ∷ w, ok tt);
}

abbrev config : ServerConfig ℕ
config = record {
  address = "0.0.0.0";
  port = 7777;
  tls = true;
  tls_certificate_path = some "cert.pem";
  tls_private_key_path = some "key.pem";
  options = 0;
}

served_with_tls_example :
    ((e : ServerError host) × (run_server host [] config ≡ ([], err e))) ⊎ ServedTls host config []
served_with_tls_example = served_with_tls host config [] refl

-- The world is what the server has served under.
served_once : run_server host [] config ≡ (some 2 ∷ [], ok tt)
unfolding run_server
served_once = refl
