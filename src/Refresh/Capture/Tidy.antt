-- ===== src/Refresh/Capture/Tidy.antt =====
-- What a run of the script does: it only asks for tables, leaves no file of variables behind, and
-- writes what is sanitized.
use routeros_inspector_mcp.Base.{
  String, ◌≡◌, refl, ◌<>◌, Bool, true, false, ◌&&◌, Option, none, some, List, [], ◌∷◌, ◌++◌, Dict,
  any, any-append, lookup, str_eq, eq_iff, ap, all, All, all→All, Bool-cases, inl, inr, arith,
  if◌then◌else◌,
}
use routeros_inspector_mcp.Errors.{Result, ok, err}
use routeros_inspector_mcp.Text.{ends_with}
use routeros_inspector_mcp.Value.{Value, str, Fields, get?}
use routeros_inspector_mcp.Refresh.Laws.{IsSanitized, build_fixture-IsSanitized}
use routeros_inspector_mcp.Refresh.Capture.{
  commands, Arguments, Event, wrote_variables, ran_playbook, removed_variables, wrote_fixture, Host,
  join_path, Required, required_of, run_id_of, variables, playbook_command, capture_each,
  capture_artifacts, artifact_dir_of, ran, written, and_return, wrote, capture_live, given,
  refresh_from, main,
}

-- The variables name the command that the table has for the suffix of the output; the command prints.
abbrev pub Asks : Fields → Type 0
Asks vars =
    (suffix command : String) × (get? "network_readonly_output_suffix" vars ≡ some (str suffix))
    × (get? "network_readonly_command" vars ≡ some (str command))
    × (lookup suffix commands ≡ some command)
    × (ends_with command " print" ≡ true)

-- The command is limited to the device.
abbrev pub IsLimited : String → List String → Type 0
IsLimited device_id cmd =
    (before after : List String) × (cmd ≡ before ++ ("--limit" ∷ device_id ∷ after))

-- Each file of variables is removed behind the one run that it is for; a fixture is sanitized.
abbrev pub IsTidy : String → List Event → Type 0
IsTidy device_id [] = Unit
IsTidy device_id (wrote_fixture path fixture ∷ events) =
    IsSanitized fixture × IsTidy device_id events
IsTidy device_id (wrote_variables p vars ∷ ran_playbook cmd vars' ∷ removed_variables q ∷ events) =
    (p ≡ q) × (vars ≡ vars') × Asks vars × IsLimited device_id cmd × IsTidy device_id events
IsTidy device_id _ = ⊥

abbrev pub is_run : Event → Bool
is_run (ran_playbook cmd vars) = true
is_run _ = false

abbrev is_option : String → Option String → Bool
is_option command none = false
is_option command (some found) = str_eq found command

is_option-eq-true :
    (command : String) (o : Option String) → is_option command o ≡ true → o ≡ some command
is_option-eq-true command none h = cc
is_option-eq-true command (some found) h = ap some ((eq_iff found command).0 h)

abbrev is_listed : String × String → Bool
is_listed (suffix, command) = is_option command (lookup suffix commands)

abbrev prints : String × String → Bool
prints c = is_listed c && ends_with c.1 " print"

commands_print : all prints commands ≡ true
unfolding ends_with lookup
commands_print = refl

variables-Asks :
    (suffix command run_id : String)
    → prints (suffix, command) ≡ true
    → Asks (variables command run_id suffix)
unfolding get?
variables-Asks suffix command run_id h = (
  suffix,
  command,
  refl,
  refl,
  is_option-eq-true command (lookup suffix commands) (ground (arith, h)),
  ground (arith, h),
)

ran-IsTidy :
    (device_id path : String) (vars : Fields) (cmd : List String)
    (later : Result (Unit {0}) × List Event) (r : Result (Unit {0}))
    → Asks vars
    → IsLimited device_id cmd
    → IsTidy device_id later.1
    → IsTidy device_id
        (ran
          (wrote_variables path vars ∷ ran_playbook cmd vars ∷ removed_variables path ∷ [])
          later
          r).1
ran-IsTidy device_id path vars cmd later (ok _) a l h = (refl, refl, a, l, h)
ran-IsTidy device_id path vars cmd later (err exc) a l h = (refl, refl, a, l, tt)

and_return-IsTidy :
    (device_id artifact_dir : String) (made : Result (Unit {0}) × List Event)
    → IsTidy device_id made.1
    → IsTidy device_id (and_return artifact_dir made).1
and_return-IsTidy device_id artifact_dir (ok _, events) h = h
and_return-IsTidy device_id artifact_dir (err exc, events) h = h

module _ (host : Host) where
  capture_each-IsTidy :
      (required : Required) (device_id run_id : String) (cs : Dict String)
      → All (λ c. prints c ≡ true) cs
      → IsTidy device_id (capture_each host required device_id run_id cs).1
  unfolding capture_each
  capture_each-IsTidy required device_id run_id [] h = tt
  capture_each-IsTidy required device_id run_id ((suffix, command) ∷ cs) (p, h) =
      let path = host.var_path suffix in
      let vars = variables command run_id suffix in
      let cmd = playbook_command required device_id path in
      ran-IsTidy device_id path vars cmd (capture_each host required device_id run_id cs)
        (host.run cmd vars) (variables-Asks suffix command run_id p)
        (
          "ansible-playbook" ∷ "-i" ∷ required.inventory_path ∷ required.playbook_path ∷ [],
          "-e" ∷ ("@" <> path) ∷ "--vault-password-file" ∷ required.vault_password_file ∷ [],
          refl,
        )
        (capture_each-IsTidy required device_id run_id cs h)

  capture_live-IsTidy :
      (args : Arguments) (r : Option Required) → IsTidy args.device_id (capture_live host args r).1
  unfolding capture_artifacts
  capture_live-IsTidy args none = tt
  capture_live-IsTidy args (some required) =
      let run_id =
        run_id_of args.run_id
          (host.now <> ("_routeros_inspector_mcp_" <> (args.device_id <> "_live"))) in
      and_return-IsTidy args.device_id
        (join_path (join_path required.ansible_root args.artifact_root) run_id)
        (capture_each host required args.device_id run_id commands)
        (capture_each-IsTidy required args.device_id run_id commands
          (all→All prints commands commands_print))

given-IsTidy : (device_id : String) (o : Option String) → IsTidy device_id (given o).1
given-IsTidy device_id none = tt
given-IsTidy device_id (some artifact_dir) = tt

given_runs : (o : Option String) → any is_run (given o).1 ≡ false
given_runs none = refl
given_runs (some artifact_dir) = refl

IsTidy-append :
    (device_id : String) (events more : List Event)
    → IsTidy device_id events
    → IsTidy device_id more
    → IsTidy device_id (events ++ more)
IsTidy-append device_id [] more h k = k
IsTidy-append device_id (wrote_fixture p f ∷ events) more (s, h) k =
    (s, IsTidy-append device_id events more h k)
IsTidy-append device_id (wrote_variables p v ∷ ran_playbook c w ∷ removed_variables q ∷ events) more
      (a, b, c', d, h) k =
    (a, b, c', d, IsTidy-append device_id events more h k)
IsTidy-append device_id _ more h k = absurd h

written-IsTidy :
    (device_id path : String) (printed fixture : Value) (before : List Event)
    (r : Result (Unit {0}))
    → IsSanitized fixture
    → IsTidy device_id before
    → IsTidy device_id (written printed path fixture before r).1
written-IsTidy device_id path printed fixture before (ok _) s h =
    IsTidy-append device_id before (wrote_fixture path fixture ∷ []) h (s, tt)
written-IsTidy device_id path printed fixture before (err exc) s h = h

written_runs :
    (path : String) (printed fixture : Value) (before : List Event) (r : Result (Unit {0}))
    → any is_run (written printed path fixture before r).1 ≡ any is_run before
written_runs path printed fixture before (ok _) =
    rw (any-append is_run before (wrote_fixture path fixture ∷ [])) (ground arith)
written_runs path printed fixture before (err exc) = refl

module _ (host : Host) (args : Arguments) where
  wrote-IsTidy :
      (artifact_dir : String) (before : List Event) (r : Result Value)
      → ((fixture : Value) → r ≡ ok fixture → IsSanitized fixture)
      → IsTidy args.device_id before
      → IsTidy args.device_id (wrote host args artifact_dir before r).1
  wrote-IsTidy artifact_dir before (err exc) s h = h
  wrote-IsTidy artifact_dir before (ok fixture) s h =
      written-IsTidy args.device_id _ _ fixture before _ (s fixture refl) h

  wrote_runs :
      (artifact_dir : String) (before : List Event) (r : Result Value)
      → any is_run (wrote host args artifact_dir before r).1 ≡ any is_run before
  wrote_runs artifact_dir before (err exc) = refl
  wrote_runs artifact_dir before (ok fixture) = written_runs _ _ fixture before _

  refresh_from-IsTidy :
      (made : Result String × List Event)
      → IsTidy args.device_id made.1
      → IsTidy args.device_id (refresh_from host args made).1
  refresh_from-IsTidy (err exc, before) h = h
  refresh_from-IsTidy (ok artifact_dir, before) h =
      wrote-IsTidy artifact_dir before _
        (build_fixture-IsSanitized (host.artifacts artifact_dir args.device_id before) artifact_dir
          args.device_id host.today)
        h

  refresh_from_runs :
      (made : Result String × List Event)
      → any is_run (refresh_from host args made).1 ≡ any is_run made.1
  refresh_from_runs (err exc, before) = refl
  refresh_from_runs (ok artifact_dir, before) = wrote_runs artifact_dir before _

  artifact_dir_of-IsTidy : IsTidy args.device_id (artifact_dir_of host args).1
  unfolding artifact_dir_of
  artifact_dir_of-IsTidy = elim (Bool-cases args.capture_live) [
    | inl live ↦
        rw (live, if◌then◌else◌)
          (capture_live-IsTidy host args (
            required_of args.ansible_root args.inventory_path args.playbook_path
              args.vault_password_file))
    | inr off ↦ rw (off, if◌then◌else◌) (given-IsTidy args.device_id args.from_artifacts)
  ]

  artifact_dir_of_runs :
      any is_run (artifact_dir_of host args).1
      ≡ any is_run (artifact_dir_of host args).1 && args.capture_live
  unfolding artifact_dir_of
  artifact_dir_of_runs = elim (Bool-cases args.capture_live) [
    | inl live ↦ ground (arith, live)
    | inr off ↦ rw (off, if◌then◌else◌, given_runs args.from_artifacts) refl
  ]

  -- However a run of the script ends, each playbook that it runs is for a command of the table that
  -- ends with `print`, limited to the device that was named, and the file of variables for it is
  -- removed; each fixture that it writes is sanitized. Without `--capture-live` it runs none.
  pub main-IsTidy :
      IsTidy args.device_id (main host args).1
      × (any is_run (main host args).1 ≡ any is_run (main host args).1 && args.capture_live)
  unfolding main
  main-IsTidy = (
    refresh_from-IsTidy (artifact_dir_of host args) artifact_dir_of-IsTidy,
    rw (refresh_from_runs (artifact_dir_of host args)) artifact_dir_of_runs,
  )
