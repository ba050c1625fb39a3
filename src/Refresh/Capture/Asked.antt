-- ===== src/Refresh/Capture/Asked.antt =====
-- Which commands a capture runs.
use routeros_inspector_mcp.Base.{
  String, ◌≡◌, refl, ap, ◌∙◌, true, some, List, [], ◌∷◌, ◌++◌, Dict, map, if◌then◌else◌,
}
use routeros_inspector_mcp.Errors.{Result, ok, err}
use routeros_inspector_mcp.Value.{Value, null, str, Fields, get?, get_or}
use routeros_inspector_mcp.Refresh.Capture.{
  commands, Arguments, Event, wrote_variables, ran_playbook, removed_variables, wrote_fixture, Host,
  Required, required_of, variables, playbook_command, capture_each, capture_artifacts,
  artifact_dir_of, written, and_return, wrote, refresh_from, main,
}

-- The commands that the playbook was run for, in order.
abbrev pub asked : List Event → List Value
asked [] = []
asked (ran_playbook cmd vars ∷ events) = get_or vars "network_readonly_command" null ∷ asked events
asked (_ ∷ events) = asked events

asked-fixture :
    (path : String) (fixture : Value) (events : List Event)
    → asked (events ++ (wrote_fixture path fixture ∷ [])) ≡ asked events
asked-fixture path fixture [] = refl
asked-fixture path fixture (ran_playbook cmd vars ∷ events) =
    ap (λ vs. get_or vars "network_readonly_command" null ∷ vs) (asked-fixture path fixture events)
asked-fixture path fixture (wrote_variables p v ∷ events) = asked-fixture path fixture events
asked-fixture path fixture (removed_variables p ∷ events) = asked-fixture path fixture events
asked-fixture path fixture (wrote_fixture p f ∷ events) = asked-fixture path fixture events

asked-written :
    (path : String) (printed fixture : Value) (before : List Event) (r : Result (Unit {0}))
    → asked (written printed path fixture before r).1 ≡ asked before
asked-written path printed fixture before (ok _) = asked-fixture path fixture before
asked-written path printed fixture before (err exc) = refl

asked-and_return :
    (artifact_dir : String) (made : Result (Unit {0}) × List Event)
    → asked (and_return artifact_dir made).1 ≡ asked made.1
asked-and_return artifact_dir (ok _, events) = refl
asked-and_return artifact_dir (err exc, events) = refl

module _ (host : Host) (args : Arguments) where
  asked-wrote :
      (artifact_dir : String) (before : List Event) (r : Result Value)
      → asked (wrote host args artifact_dir before r).1 ≡ asked before
  asked-wrote artifact_dir before (err exc) = refl
  asked-wrote artifact_dir before (ok fixture) = asked-written _ _ fixture before _

  asked-refresh_from :
      (made : Result String × List Event) → asked (refresh_from host args made).1 ≡ asked made.1
  asked-refresh_from (err exc, before) = refl
  asked-refresh_from (ok artifact_dir, before) = asked-wrote artifact_dir before _

  module _ (runs : (cmd : List String) (vars : Fields) → host.run cmd vars ≡ ok tt) where
    asked-capture_each :
        (required : Required) (device_id run_id : String) (cs : Dict String)
        → asked (capture_each host required device_id run_id cs).1 ≡ map (λ c. str c.1) cs
    unfolding capture_each get_or get?
    asked-capture_each required device_id run_id [] = refl
    asked-capture_each required device_id run_id ((suffix, command) ∷ cs) =
        rw
          (runs (playbook_command required device_id (host.var_path suffix))
            (variables command run_id suffix))
          (ap (λ vs. str command ∷ vs) (asked-capture_each required device_id run_id cs))

    -- A live capture in which each run of the playbook succeeds asks for each command of the table,
    -- in its order, once, whatever becomes of the fixture.
    pub asked-main :
        (required : Required)
        → args.capture_live ≡ true
        → required_of args.ansible_root args.inventory_path args.playbook_path
            args.vault_password_file
          ≡ some required
        → asked (main host args).1 ≡ map (λ c. str c.1) commands
    unfolding main artifact_dir_of capture_artifacts
    asked-main required live given =
        asked-refresh_from (artifact_dir_of host args)
        ∙ rw (live, if◌then◌else◌, given)
            (asked-and_return _ (capture_each host required args.device_id _ commands)
              ∙ asked-capture_each required args.device_id _ commands)
