-- ===== src/Backend/Live/Session.antt =====
-- The connections that a method opens: to the device of the inventory, one at a time, all closed again.
use mathlib.Core.Path.{subst}
use routeros_inspector_mcp.Base.{
  String, ◌≡◌, refl, sym, pos, Bool, true, false, Option, none, some, List, [], ◌∷◌, ◌++◌, Dict,
  lookup, if◌then◌else◌,
}
use routeros_inspector_mcp.Errors.{Result, ok, err}
use routeros_inspector_mcp.Value.{Value, Fields, null, int, get_or, truthy, is_none}
use routeros_inspector_mcp.Config.{DeviceEntry}
use routeros_inspector_mcp.Credentials.{Credentials}
use routeros_inspector_mcp.Backend.Fixture.{accepts}
use routeros_inspector_mcp.Backend.Live.{
  ConnectArgs, Printed, items, decode_error, print_failed, Client, Event, opened, closed, Action,
  ◌>>=◌, pure, connect, connect_latin1, retry, after_print, query, query_single, get_system_summary,
  get_recent_logs, get_backup_info, get_firmware_version, get_snmp_config, Query, many, single,
  system_summary, recent_logs, backup_info, firmware_version, snmp_config, run_query, asked,
  live_methods, live_call, topic_names, matching_logs, backup_files, last_entries,
}
use routeros_inspector_mcp.Backend.Live.Connection.{
  ArePaired, IsFor, Opens, >>=-ArePaired, connect-Opens, connect_latin1-Opens,
}

module _ (client : Client) (resolve : String → Result Credentials)
    (devices : Dict DeviceEntry) where
  -- The connection that is open when `after_print` begins is closed first.
  abbrev ClosesFirst : (ConnectArgs → Type 0) → ConnectArgs → List Event → Type 0
  ClosesFirst P args [] = ⊥
  ClosesFirst P args (opened a ∷ events) = ⊥
  ClosesFirst P args (closed a ∷ events) = (args ≡ a) × ArePaired P events

  paired_after_opened :
      (P : ConnectArgs → Type 0) (args : ConnectArgs) (events : List Event)
      → P args
      → ClosesFirst P args events
      → ArePaired P (opened args ∷ events)
  paired_after_opened P args [] p h = absurd h
  paired_after_opened P args (opened a ∷ events) p h = absurd h
  paired_after_opened P args (closed a ∷ events) p (e, h) = (e, p, h)

  retry-ArePaired :
      (P : ConnectArgs → Type 0) (device_id : String) (path : List String) (m : Action ConnectArgs)
      → Opens P m
      → ArePaired P (retry client resolve devices device_id path m).1
  retry-ArePaired P device_id path (err e, events) h = subst (ArePaired P) (sym h) tt
  retry-ArePaired P device_id path (ok args, events) (h, p) =
      subst (λ (es : List Event). ArePaired P (es ++ (closed args ∷ []))) (sym h) (refl, p, tt)

  after_print-ClosesFirst :
      (device_id : String) (path : List String) (args : ConnectArgs) (printed : Printed)
      → ClosesFirst
          (IsFor client resolve devices device_id)
          args
          (after_print client resolve devices device_id path args printed).1
  after_print-ClosesFirst device_id path args (items rows) = (refl, tt)
  after_print-ClosesFirst device_id path args (print_failed message) = (refl, tt)
  after_print-ClosesFirst device_id path args (decode_error message) = (
    refl,
    retry-ArePaired (IsFor client resolve devices device_id) device_id path
        (connect_latin1 client resolve devices device_id)
        (connect_latin1-Opens client resolve devices device_id),
  )

  opened_then :
      (P : ConnectArgs → Type 0) (m : Action ConnectArgs) (f : ConnectArgs → Action (List Fields))
      → Opens P m
      → ((args : ConnectArgs) → ClosesFirst P args (f args).1)
      → ArePaired P (m >>= f).1
  opened_then P (err e, events) f h k = subst (ArePaired P) (sym h) tt
  opened_then P (ok args, events) f (h, p) k =
      subst (λ (es : List Event). ArePaired P (es ++ (f args).1)) (sym h)
        (paired_after_opened P args (f args).1 p (k args))

  query-ArePaired :
      (device_id : String) (path : List String)
      → ArePaired
          (IsFor client resolve devices device_id)
          (query client resolve devices device_id path).1
  unfolding query
  query-ArePaired device_id path =
      opened_then (IsFor client resolve devices device_id)
        (connect client resolve devices device_id) _
        (connect-Opens client resolve devices device_id)
        λ args. after_print-ClosesFirst device_id path args (client.print args path)

  query_single-ArePaired :
      (device_id : String) (path : List String)
      → ArePaired
          (IsFor client resolve devices device_id)
          (query_single client resolve devices device_id path).1
  unfolding query_single
  query_single-ArePaired device_id path =
      >>=-ArePaired (IsFor client resolve devices device_id)
        (query client resolve devices device_id path) _ (query-ArePaired device_id path) λ found. tt

  paired_if :
      (P : ConnectArgs → Type 0) (b : Bool) (m n : Action Value)
      → ArePaired P m.1
      → ArePaired P n.1
      → ArePaired P (if b then m else n).1
  paired_if P true m n h k = h
  paired_if P false m n h k = k

  recent_logs-ArePaired :
      (device_id : String) (minutes topics : Value)
      → ArePaired
          (IsFor client resolve devices device_id)
          (get_recent_logs client resolve devices device_id minutes topics).1
  unfolding get_recent_logs
  recent_logs-ArePaired device_id minutes topics =
      >>=-ArePaired (IsFor client resolve devices device_id)
        (query client resolve devices device_id ("log" ∷ [])) _
        (query-ArePaired device_id ("log" ∷ []))
        λ found.
          paired_if (IsFor client resolve devices device_id) (truthy topics) _ _
            (>>=-ArePaired (IsFor client resolve devices device_id) (pure (topic_names topics)) _ tt
              λ names.
                >>=-ArePaired (IsFor client resolve devices device_id)
                  (pure (
                    matching_logs names
                      (if is_none minutes then found else last_entries 500 found)))
                  _ tt λ logs. tt)
            tt

  snmp-ArePaired :
      (device_id : String)
      → ArePaired
          (IsFor client resolve devices device_id)
          (get_snmp_config client resolve devices device_id).1
  unfolding get_snmp_config
  snmp-ArePaired device_id =
      >>=-ArePaired (IsFor client resolve devices device_id)
        (query_single client resolve devices device_id ("snmp" ∷ [])) _
        (query_single-ArePaired device_id ("snmp" ∷ []))
        λ main.
          >>=-ArePaired (IsFor client resolve devices device_id)
            (query client resolve devices device_id ("snmp" ∷ "community" ∷ [])) _
            (query-ArePaired device_id ("snmp" ∷ "community" ∷ [])) λ communities. tt

  run_query-ArePaired :
      (q : Query) (device_id : String) (kws : Fields)
      → ArePaired
          (IsFor client resolve devices device_id)
          (run_query client resolve devices q device_id kws).1
  unfolding run_query get_system_summary get_backup_info get_firmware_version
  run_query-ArePaired (many path) device_id kws =
      >>=-ArePaired (IsFor client resolve devices device_id)
        (query client resolve devices device_id path) _ (query-ArePaired device_id path) λ found. tt
  run_query-ArePaired (single path) device_id kws =
      >>=-ArePaired (IsFor client resolve devices device_id)
        (query_single client resolve devices device_id path) _
        (query_single-ArePaired device_id path) λ found. tt
  run_query-ArePaired system_summary device_id kws =
      let path = "system" ∷ "resource" ∷ [] in
      >>=-ArePaired (IsFor client resolve devices device_id)
        (query_single client resolve devices device_id path) _
        (query_single-ArePaired device_id path) λ found. tt
  run_query-ArePaired recent_logs device_id kws =
      recent_logs-ArePaired device_id (get_or kws "minutes" (int (pos 60)))
        (get_or kws "topics" null)
  run_query-ArePaired backup_info device_id kws =
      >>=-ArePaired (IsFor client resolve devices device_id)
        (query client resolve devices device_id ("file" ∷ [])) _
        (query-ArePaired device_id ("file" ∷ []))
        λ files.
          >>=-ArePaired (IsFor client resolve devices device_id) (pure (backup_files files)) _ tt
            λ kept. tt
  run_query-ArePaired firmware_version device_id kws =
      let path = "system" ∷ "resource" ∷ [] in
      >>=-ArePaired (IsFor client resolve devices device_id)
        (query_single client resolve devices device_id path) _
        (query_single-ArePaired device_id path) λ found. tt
  run_query-ArePaired snmp_config device_id kws = snmp-ArePaired device_id

  asked-ArePaired :
      (q : Option Query) (device_id : String) (kws : Fields)
      → ArePaired
          (IsFor client resolve devices device_id)
          (asked client resolve devices q device_id kws).1
  asked-ArePaired none device_id kws = tt
  asked-ArePaired (some q) device_id kws = run_query-ArePaired q device_id kws

  -- Whatever a method of the live backend does, and however it ends, it has one connection open at a
  -- time and closes each one that it opened, the retry after undecodable bytes included; each goes to
  -- the host and the port that the inventory has for the device, and over TLS, where the inventory asks
  -- for it, with the pinned certificate and the name of the server.
  pub live_call-ArePaired :
      (method device_id : String) (kws : Fields)
      → ArePaired
          (IsFor client resolve devices device_id)
          (live_call client resolve devices method device_id kws).1
  unfolding live_call
  live_call-ArePaired method device_id kws =
      paired_if (IsFor client resolve devices device_id) (accepts method kws) _ _
        (asked-ArePaired (lookup method live_methods) device_id kws) tt
