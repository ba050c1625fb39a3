-- ===== src/Backend/Fixture/Laws.antt =====
-- The fixture backend answers for a device that has no file.
use routeros_inspector_mcp.Base.{String, ◌≡◌, some, lookup}
use routeros_inspector_mcp.Errors.{ok}
use routeros_inspector_mcp.Value.{Value, str, arr, obj, nil, end}
use routeros_inspector_mcp.Backend.Fixture.{
  FixtureDir, missing, Shape, a_list, a_dict, a_str, fixture_methods, load, load_shape,
  fixture_call,
}

-- A method that is there answers for a device with no file: no rows, no settings, or an unknown
-- version.
abbrev pub nothing : Shape → Value
nothing a_list = arr nil
nothing a_dict = obj end
nothing a_str = str "unknown"

load-missing :
    (dir : FixtureDir) (device_id key : String)
    → dir device_id ≡ missing
    → load dir device_id key ≡ ok (obj end)
unfolding load
load-missing dir device_id key gone = rw gone

load_shape-missing :
    (dir : FixtureDir) (device_id key : String) (shape : Shape)
    → dir device_id ≡ missing
    → load_shape dir device_id key shape ≡ ok (nothing shape)
unfolding load_shape
load_shape-missing dir device_id key a_list gone = rw (load-missing dir device_id key gone)
load_shape-missing dir device_id key a_dict gone = rw (load-missing dir device_id key gone)
load_shape-missing dir device_id key a_str gone = rw (load-missing dir device_id key gone)

-- Where a device has no file, each method answers with the empty value of its shape.
pub fixture_call-missing :
    (dir : FixtureDir) (method device_id key : String) (shape : Shape)
    → lookup method fixture_methods ≡ some (key, shape)
    → dir device_id ≡ missing
    → fixture_call dir method device_id end ≡ ok (nothing shape)
unfolding fixture_call
fixture_call-missing dir method device_id key shape h gone =
    rw (h, fixture_call) (load_shape-missing dir device_id key shape gone)
