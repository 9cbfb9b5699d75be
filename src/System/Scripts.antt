-- ===== src/System/Scripts.antt =====
-- wolf/src/system/script/rhai.rs and javascript.rs, and `timeout` of wolf/src/system/chrono/time.rs.
--
-- The engines, the worker threads of wasm_mt and tokio's timer are parameters.
use Prim.Native.String.{◌++◌ as ◌<>◌}
use wolf_engine.Base.{
  Bool, true, false, Option, none, some, String, Result, ok, err, map_err, ◌>>=◌, if◌then◌else◌,
}

-- An engine of rhai, which evaluates to values that each type may be read from; its errors are shown
-- by `{:?}`.
pub record Engines : Type 1 where
  pub Engine : Type 0
  pub Function : Type 0
  pub Value : Type 0
  pub Problem : Type 0
  pub debug : Problem → String
  pub fresh : Engine
  pub run : Engine → String → Result Problem (Unit {0})
  pub eval : Engine → String → Result Problem Value
  pub register_fn : Engine → String → Function → Engine

-- An anyhow error with one context.
pub record Failure : Type 0 where
  pub context : String
  pub cause : String

module _ (rhai : Engines) where
  open rhai use {Engine, Function, Value, Problem, debug}

  abbrev pub because : String → Problem → Failure
  because trace e = record { context = trace; cause = debug e }

  -- Rhai::new and its methods
  abbrev pub new : Engine
  new = rhai.fresh

  unfoldable pub run_return_void : Engine → String → Result Failure (Unit {0})
  run_return_void engine script =
      map_err (because "WRhai::run_return_void") (rhai.run engine script)

  unfoldable pub run_return_any : Engine → String → Result Failure Value
  run_return_any engine script = map_err (because "WRhai::run_return_any") (rhai.eval engine script)

  unfoldable pub register_function : Engine → String → Function → Engine
  register_function engine name f = rhai.register_fn engine name f

-- wasm_mt: a worker from the path of its package, a thread of it, and what a thread runs.
pub record Workers : Type 1 where
  pub Worker : Type 0
  pub Thread : Type 0
  pub JsValue : Type 0
  pub debug : JsValue → String
  pub new_worker : String → Result JsValue Worker
  pub new_thread : Worker → Result JsValue Thread
  pub exec_js : Thread → String → Result JsValue JsValue
  pub exec_js_async : Thread → String → Result JsValue JsValue

module _ (wasm : Workers) where
  open wasm use {Worker, Thread, JsValue, debug}

  -- JavaScript::new
  unfoldable pub js_worker_path : Option String → String
  js_worker_path none = "./pkg/wolf_demo.js"
  js_worker_path (some path) = path

  abbrev pub traced : JsValue → String
  traced e = debug e <> ". trace info: WJavaScript::execute"

  -- JavaScript::execute
  unfoldable pub execute : String → String → Bool → Result String JsValue
  execute path script asynchronous = map_err traced (wasm.new_worker path) >>= λ worker.
      map_err traced (wasm.new_thread worker) >>= λ thread.
      map_err traced
        (if asynchronous then wasm.exec_js_async thread script else wasm.exec_js thread script)

-- `timeout`, over the state that the future changes, by how `tokio::time::timeout` leaves it: with the
-- future's end, or with `Elapsed`, shown. The build for wasm32 has no call of it.
unfoldable pub timeout :
    {S : Type 0} → Bool → S → S × Result String (Unit {0}) → S × Result String (Unit {0})
timeout true s awaited = (s, ok tt)
timeout false s (s', ok _) = (s', ok tt)
timeout false s (s', err elapsed) = (s', err ("timeout reached after " <> elapsed))
