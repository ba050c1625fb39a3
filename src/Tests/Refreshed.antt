-- ===== src/Tests/Refreshed.antt =====
-- The theorems on a run of the refresh script, applied to a live capture of the sample device.
use routeros_inspector_mcp.Base.{◌<>◌, ◌≡◌, refl, true, ◌&&◌, none, some, any, map}
use routeros_inspector_mcp.Errors.{ok}
use routeros_inspector_mcp.Value.{str}
use routeros_inspector_mcp.Refresh.Capture.{commands, Arguments, Host, Required, main}
use routeros_inspector_mcp.Refresh.Capture.Tidy.{IsTidy, is_run, main-IsTidy}
use routeros_inspector_mcp.Refresh.Capture.Asked.{asked, asked-main}
use routeros_inspector_mcp.Tests.Captured.{artifacts}

-- The playbook always succeeds, and leaves the sample artifacts.
abbrev host : Host
host = record {
  now = "20260102_030405";
  today = "2026-01-02";
  var_path = λ suffix. "/tmp/" <> (suffix <> ".json");
  run = λ cmd vars. ok tt;
  artifacts = λ dir device_id events. artifacts;
  write = λ path. ok tt;
}

abbrev args : Arguments
args = record {
  device_id = "gw";
  from_artifacts = none;
  capture_live = true;
  fixture_dir = "artifacts/private-fixtures";
  ansible_root = some "/srv/ansible";
  inventory_path = some "hosts.yml";
  playbook_path = some "readonly.yml";
  artifact_root = "artifacts/network-readonly";
  run_id = none;
  vault_password_file = some ".vault_pass";
}

abbrev required : Required
required = record {
  ansible_root = "/srv/ansible";
  inventory_path = "hosts.yml";
  playbook_path = "readonly.yml";
  vault_password_file = ".vault_pass";
}

main-IsTidy_example :
    IsTidy "gw" (main host args).1
    × (any is_run (main host args).1 ≡ any is_run (main host args).1 && true)
main-IsTidy_example = main-IsTidy host args

asked-main_example : asked (main host args).1 ≡ map (λ c. str c.1) commands
asked-main_example = asked-main host args (λ cmd vars. refl) required refl refl
