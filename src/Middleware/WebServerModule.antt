-- ===== src/Middleware/WebServerModule.antt =====
-- middleware/include/takt/modules/webserver_module.hpp and middleware/src/webserver_module.cpp in the
-- ESP32 build, over ESP-IDF's HTTP server as a parameter on a state `W`. The texts that the handlers
-- send are output.
use takt_os.Base.{ℕ, Bool, true, false, not, if◌then◌else◌}

-- `server` is whether gServer is set.
pub record WebServerModule : Type 0 where
  pub port : ℕ
  pub running : Bool
  pub server : Bool

-- The pages.
pub data Page : Type 0 where
  api_status api_stats : Page

pub record HttpApi (W : Type 0) : Type 0 where
  pub start : ℕ → W → Bool × W
  pub register_handler : Page → W → W
  pub stop : W → W

pub set_port : WebServerModule → ℕ → WebServerModule
set_port m port = record m { port = port }

pub tick : WebServerModule → WebServerModule
tick m = m

module _ {W : Type 0} (api : HttpApi W) where
  pub init : WebServerModule → W → Bool × WebServerModule × W
  init m w =
      let (ok, w1) = api.start m.port w in
      let w2 = api.register_handler Page.api_stats (api.register_handler Page.api_status w1) in
      if not ok then (false, m, w1) else (true, record m { running = true; server = true }, w2)

  pub shutdown : WebServerModule → W → WebServerModule × W
  shutdown m w = (record m { running = false; server = false }, if m.server then api.stop w else w)
