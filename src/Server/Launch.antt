-- ===== src/Server/Launch.antt =====
-- How the server may be started: what it binds, and where its answers come from.
use mathlib.Core.Path.{subst}
use routeros_inspector_mcp.Base.{
  String, ◌≡◌, Bool, true, false, not, ◌&&◌, Option, some, arith, if◌then◌else◌, refl, none,
}
use routeros_inspector_mcp.Errors.{Exn, ok, err, ok-injective}
use routeros_inspector_mcp.Value.{Value, Fields}
use routeros_inspector_mcp.Redaction.{redact}
use routeros_inspector_mcp.Config.{DeviceInventory, PolicyBaseline}
use routeros_inspector_mcp.Backend.{Backend}
use routeros_inspector_mcp.Service.{call_backend}
use routeros_inspector_mcp.Service.Access.{call_backend_fixture_mode}
use routeros_inspector_mcp.Server.Tools.{Transport, is_network, Launch, create_server, main}

passed_guard :
    (b : Bool) (e : Exn) (l : Launch) {l' : Launch}
    → (if b then err e else ok l) ≡ ok l'
    → (b ≡ false) × (l ≡ l')
passed_guard true e l h = cc
passed_guard false e l h = (refl, ok-injective h)

-- A server that was started with these flags.
pub record IsContained (fixture : Backend) (live_flag allow_loopback_http : Bool) (l : Launch)
    : Type 0 where
  -- On a network transport the operator has allowed it, and only the loopback address is bound.
  pub loopback :
      is_network l.transport ≡ true → (allow_loopback_http ≡ true) × (l.host ≡ some "127.0.0.1")
  -- Without `--live` a call that returns has the redacted answer of the fixture backend.
  pub offline :
      live_flag ≡ false
      → (device_id method : String) (kwargs : Fields) (v : Value)
      → call_backend l.service device_id method kwargs ≡ ok v
      → (raw : Value) × (fixture.call method device_id kwargs ≡ ok raw) × (v ≡ redact raw)

module _ (inventory : DeviceInventory) (fixture : Backend) (live : Option Backend)
    (policy : Option PolicyBaseline) where
  abbrev launched : Transport → Bool → Launch
  launched transport live_flag = record {
    service = create_server inventory fixture live policy (not live_flag);
    transport = transport;
    host = if is_network transport then some "127.0.0.1" else none;
  }

  offline_at :
      (live_flag : Bool)
      → live_flag ≡ false
      → (device_id method : String) (kwargs : Fields) (v : Value)
      → call_backend
          (create_server inventory fixture live policy (not live_flag))
          device_id
          method
          kwargs
        ≡ ok v
      → (raw : Value) × (fixture.call method device_id kwargs ≡ ok raw) × (v ≡ redact raw)
  unfolding create_server
  offline_at true off device_id method kwargs v h = cc
  offline_at false off device_id method kwargs v h =
      call_backend_fixture_mode inventory fixture live policy device_id method kwargs v h

  launched-IsContained :
      (transport : Transport) (live_flag allow : Bool)
      → (is_network transport && not allow) ≡ false
      → IsContained fixture live_flag allow (launched transport live_flag)
  launched-IsContained transport live_flag allow h = record {
    loopback = λ n. (ground arith, ground arith);
    offline = offline_at live_flag;
  }

  -- A server that starts binds at most the loopback address, over the network only where the operator
  -- allowed it, and without `--live` each call that returns has the redacted answer of the fixture
  -- backend, whatever transports the inventory names and whatever live backend there is.
  pub main-IsContained :
      (transport : Transport) (live_flag allow_loopback_http : Bool) (l : Launch)
      → main inventory fixture live policy transport live_flag allow_loopback_http ≡ ok l
      → IsContained fixture live_flag allow_loopback_http l
  unfolding main
  main-IsContained transport live_flag allow l h =
      let (passed, same) = passed_guard (is_network transport && not allow) _ _ h in
      subst (IsContained fixture live_flag allow) same
        (launched-IsContained transport live_flag allow passed)
