-- ===== src/Refresh/Capture.antt =====
-- scripts/refresh_routeros_fixture.py: `capture_artifacts` and `main`. The programs that are run and the
-- files are a parameter; what the script does to them is kept as a list of events. A path is its text,
-- without a slash at its end.
pub mod Tidy
pub mod Asked
use routeros_inspector_mcp.Base.{
  String, ◌<>◌, Bool, true, false, Option, none, some, List, [], ◌∷◌, ◌++◌, Dict, str_eq,
  if◌then◌else◌,
}
use routeros_inspector_mcp.Errors.{Result, ok, err, other_error}
use routeros_inspector_mcp.Text.{starts_with_char}
use routeros_inspector_mcp.Value.{Value, bool, str, obj, Fields, end, field}
use routeros_inspector_mcp.Refresh.{Artifacts, build_fixture}

-- `COMMANDS`
abbrev pub commands : Dict String
commands =
    ("system-resource", "/system resource print")
    ∷ ("system-identity", "/system identity print")
    ∷ ("system-routerboard", "/system routerboard print")
    ∷ ("interfaces", "/interface print")
    ∷ ("bridge-ports", "/interface bridge port print")
    ∷ ("bridge-vlans", "/interface bridge vlan print")
    ∷ ("routes", "/ip route print")
    ∷ ("routing-tables", "/routing table print")
    ∷ ("routing-rules", "/routing rule print")
    ∷ ("firewall-filter", "/ip firewall filter print")
    ∷ ("firewall-nat", "/ip firewall nat print")
    ∷ ("firewall-mangle", "/ip firewall mangle print")
    ∷ ("address-lists", "/ip firewall address-list print")
    ∷ ("dhcp-leases", "/ip dhcp-server lease print")
    ∷ ("arp", "/ip arp print")
    ∷ ("recent-logs", "/log print")
    ∷ ("qos-queues", "/queue simple print")
    ∷ ("queue-tree", "/queue tree print")
    ∷ ("queue-types", "/queue type print")
    ∷ ("wireguard-interfaces", "/interface wireguard print")
    ∷ ("wireguard-peers", "/interface wireguard peers print")
    ∷ ("ip-services", "/ip service print")
    ∷ ("dhcp-servers", "/ip dhcp-server print")
    ∷ ("backup-info", "/file print")
    ∷ ("dns-config", "/ip dns print")
    ∷ ("snmp-config", "/snmp print")
    ∷ ("snmp-community", "/snmp community print")
    ∷ []

-- The arguments, as argparse makes them.
pub record Arguments : Type 0 where
  pub device_id : String
  pub from_artifacts : Option String
  pub capture_live : Bool
  pub fixture_dir : String
  pub ansible_root : Option String
  pub inventory_path : Option String
  pub playbook_path : Option String
  pub artifact_root : String
  pub run_id : Option String
  pub vault_password_file : Option String

-- What the script does: a file of variables is written, the playbook is run with what that file
-- holds, the file is removed, a fixture is written.
pub data Event : Type 0 where
  wrote_variables : String → Fields → Event
  ran_playbook : List String → Fields → Event
  removed_variables : String → Event
  wrote_fixture : String → Value → Event

-- The time, the name of a new file of variables, `subprocess.run` with `check`, the artifacts that a
-- directory holds for a device after what was done, and the writing of a file.
pub record Host : Type 0 where
  pub now : String
  pub today : String
  pub var_path : String → String
  pub run : List String → Fields → Result (Unit {0})
  pub artifacts : String → String → List Event → Artifacts
  pub write : String → Result (Unit {0})

-- `a / b`
unfoldable pub join_path : String → String → String
join_path a b = if starts_with_char b'/' b then b else a <> ("/" <> b)

-- The options that `--capture-live` requires.
pub record Required : Type 0 where
  pub ansible_root : String
  pub inventory_path : String
  pub playbook_path : String
  pub vault_password_file : String

abbrev pub required_of :
    Option String → Option String → Option String → Option String → Option Required
required_of (some root) (some inventory) (some playbook) (some vault) = some (record {
  ansible_root = root;
  inventory_path = inventory;
  playbook_path = playbook;
  vault_password_file = vault;
})
required_of _ _ _ _ = none

-- `args.run_id or ...`
abbrev pub run_id_of : Option String → String → String
run_id_of none default = default
run_id_of (some run_id) default = if str_eq run_id "" then default else run_id

abbrev pub variables : String → String → String → Fields
variables command run_id suffix = field "network_readonly_command" (str command) (
    field "network_readonly_run_id" (str run_id) (
      field "network_readonly_output_suffix" (str suffix)
        (field "routeros_readonly_transport" (str "api") end)))

abbrev pub playbook_command : Required → String → String → List String
playbook_command required device_id var_path =
    "ansible-playbook"
    ∷ "-i"
    ∷ required.inventory_path
    ∷ required.playbook_path
    ∷ "--limit"
    ∷ device_id
    ∷ "-e"
    ∷ ("@" <> var_path)
    ∷ "--vault-password-file"
    ∷ required.vault_password_file
    ∷ []

-- The raise of a run ends the loop, behind `finally`.
abbrev pub ran :
    List Event → Result (Unit {0}) × List Event → Result (Unit {0}) → Result (Unit {0}) × List Event
ran events later (ok _) = (later.0, events ++ later.1)
ran events later (err exc) = (err exc, events)

-- What `json.dumps` prints at the end.
abbrev pub printed_summary : String → String → String → Value
printed_summary device_id artifact_dir output_path = obj (
    field "ok" (bool true) (
      field "device_id" (str device_id)
        (field "artifact_dir" (str artifact_dir) (field "fixture" (str output_path) end))))

abbrev pub written :
    Value → String → Value → List Event → Result (Unit {0}) → Result Value × List Event
written printed output_path fixture before (ok _) =
    (ok printed, before ++ (wrote_fixture output_path fixture ∷ []))
written printed output_path fixture before (err exc) = (err exc, before)

abbrev pub and_return : String → Result (Unit {0}) × List Event → Result String × List Event
and_return artifact_dir (ok _, events) = (ok artifact_dir, events)
and_return artifact_dir (err exc, events) = (err exc, events)

abbrev pub given : Option String → Result String × List Event
given none = (err (other_error "SystemExit"), [])
given (some artifact_dir) = (ok artifact_dir, [])

module _ (host : Host) where
  -- The loop of `capture_artifacts`. The file of variables is removed also where the run fails.
  unfoldable pub capture_each :
      Required → String → String → Dict String → Result (Unit {0}) × List Event
  capture_each required device_id run_id [] = (ok tt, [])
  capture_each required device_id run_id ((suffix, command) ∷ rest) =
      let later = capture_each required device_id run_id rest in
      let path = host.var_path suffix in
      let vars = variables command run_id suffix in
      let cmd = playbook_command required device_id path in
      ran (wrote_variables path vars ∷ ran_playbook cmd vars ∷ removed_variables path ∷ []) later
        (host.run cmd vars)

  -- `capture_artifacts`, with the directory that it returns.
  unfoldable pub capture_artifacts : Arguments → Required → Result String × List Event
  unfolding capture_each join_path
  capture_artifacts args required =
      let run_id =
        run_id_of args.run_id
          (host.now <> ("_routeros_inspector_mcp_" <> (args.device_id <> "_live"))) in
      and_return (join_path (join_path required.ansible_root args.artifact_root) run_id)
        (capture_each required args.device_id run_id commands)

  abbrev pub capture_live : Arguments → Option Required → Result String × List Event
  capture_live args none = (err (other_error "SystemExit"), [])
  capture_live args (some required) = capture_artifacts args required

  -- The directory of the artifacts; `parser.error` exits.
  unfoldable pub artifact_dir_of : Arguments → Result String × List Event
  unfolding capture_artifacts
  artifact_dir_of args =
      if args.capture_live
      then capture_live args (
          required_of args.ansible_root args.inventory_path args.playbook_path
            args.vault_password_file)
      else given args.from_artifacts

  abbrev pub wrote : Arguments → String → List Event → Result Value → Result Value × List Event
  wrote args artifact_dir before (err exc) = (err exc, before)
  wrote args artifact_dir before (ok fixture) =
      let output_path = join_path args.fixture_dir (args.device_id <> ".json") in
      written (printed_summary args.device_id artifact_dir output_path) output_path fixture before
        (host.write output_path)

  -- The end of `main`, from the directory of the artifacts.
  abbrev pub refresh_from : Arguments → Result String × List Event → Result Value × List Event
  refresh_from args (err exc, before) = (err exc, before)
  refresh_from args (ok artifact_dir, before) = wrote args artifact_dir before (
      build_fixture (host.artifacts artifact_dir args.device_id before) artifact_dir args.device_id
        host.today)

  -- `main`, with what it prints before it returns 0.
  unfoldable pub main : Arguments → Result Value × List Event
  unfolding artifact_dir_of build_fixture join_path
  main args = refresh_from args (artifact_dir_of args)
