-- ===== src/AuditLog.antt =====
-- audit_log.py: the JSONL file that records the operations. A line is the JSON document that it
-- holds; `json.dumps` writes no line break, so that each entry is one line.
pub mod Journal
use routeros_inspector_mcp.Base.{
  ℕ, String, Bool, true, false, ◌&&◌, ◌||◌, Option, none, some, List, [], ◌∷◌, ◌++◌, pos, str_eq,
  if◌then◌else◌, map, contains, string_eq,
}
use routeros_inspector_mcp.Errors.{
  Exn, backend_error, service_error, value_error, credential_error, other_error, Result, ok, err,
  ◌>>=◌,
}
use routeros_inspector_mcp.Value.{
  Value, null, int, str, arr, obj, nil, Fields, end, field, get?, get_or, to_items,
}

-- `AuditEntry`. A dataclass does not check its fields, so an entry that was read can hold any value.
pub record AuditEntry : Type 0 where
  pub request_id : Value
  pub timestamp : Value
  pub operation : Value
  pub device_ids : Value
  pub duration_ms : Value
  pub status : Value
  pub error_class : Value
  pub artifact_path : Value

-- `asdict(entry)`
unfoldable pub asdict : AuditEntry → Fields
asdict e = field "request_id" e.request_id (
    field "timestamp" e.timestamp (
      field "operation" e.operation (
        field "device_ids" e.device_ids (
          field "duration_ms" e.duration_ms (
            field "status" e.status
              (field "error_class" e.error_class (field "artifact_path" e.artifact_path end)))))))

abbrev entry_fields : List String
entry_fields =
    "request_id" ∷ "timestamp" ∷ "operation" ∷ "device_ids" ∷ "duration_ms" ∷ "status"
    ∷ "error_class" ∷ "artifact_path" ∷ []

abbrev only_known : Fields → Bool
only_known end = true
only_known (field k v d) = contains entry_fields k && only_known d

-- An argument without a default.
abbrev required : String → Fields → Result Value
required k d = elim (get? k d) [ none ↦ err (other_error "TypeError") | some v ↦ ok v ]

-- `AuditEntry(**data)`
unfoldable pub entry_of_fields : Fields → Result AuditEntry
unfolding get? get_or
entry_of_fields data' = do
  request_id ← required "request_id" data'
  timestamp ← required "timestamp" data'
  operation ← required "operation" data'
  let entry : AuditEntry = record {
    request_id = request_id;
    timestamp = timestamp;
    operation = operation;
    device_ids = get_or data' "device_ids" (arr nil);
    duration_ms = get_or data' "duration_ms" (int (pos 0));
    status = get_or data' "status" (str "pending");
    error_class = get_or data' "error_class" (str "");
    artifact_path = get_or data' "artifact_path" (str "");
  }
  if only_known data' then ok entry else err (other_error "TypeError")

abbrev pub entry_of : Value → Result AuditEntry
entry_of (obj d) = entry_of_fields d
entry_of v = err (other_error "TypeError")

-- The file at `log_path`: its lines, if it is there, and whether it can be opened for appending.
pub record LogFile : Type 0 where
  pub lines : Option (List Value)
  pub writable : Bool

abbrev pub lines_of : Option (List Value) → List Value
lines_of none = []
lines_of (some lines) = lines

-- `AuditLogger.log`
unfoldable pub log : AuditEntry → LogFile → Result (Unit {0}) × LogFile
unfolding asdict
log entry file =
    if file.writable
    then (ok tt, record file { lines = some (lines_of file.lines ++ (obj (asdict entry) ∷ [])) })
    else (err (other_error "OSError"), file)

unfoldable pub read_lines : List Value → Result (List AuditEntry)
unfolding entry_of_fields
read_lines [] = ok []
read_lines (line ∷ lines) = do
  entry ← entry_of line
  entries ← read_lines lines
  ok (entry ∷ entries)

-- `AuditLogger.get_entries`
unfoldable pub get_entries : LogFile → Result (List AuditEntry)
unfolding read_lines
get_entries file = read_lines (lines_of file.lines)

-- What the run of an operation takes from outside: a new id, the time of day, and the milliseconds
-- that it lasts.
pub record Ticket : Type 0 where
  pub request_id : String
  pub now : String
  pub elapsed : ℕ

-- `exc.__class__.__name__`
abbrev pub class_name : Exn → String
class_name (backend_error label message) = "BackendError"
class_name (service_error label) = "ServiceError"
class_name (value_error message) = "ValueError"
class_name (credential_error message) = "CredentialError"
class_name (other_error name) = name

abbrev ids_value : Option (List String) → Value
ids_value none = arr nil
ids_value (some ids) = arr (to_items (map str ids))

-- The entry of an operation whose body has ended.
unfoldable pub entry_for {ℓ} :
    {A : Type ℓ} → Ticket → String → Option (List String) → Result A → AuditEntry
entry_for ticket operation device_ids body = record {
  request_id = str ticket.request_id;
  timestamp = str ticket.now;
  operation = str operation;
  device_ids = ids_value device_ids;
  duration_ms = int (pos ticket.elapsed);
  status = elim body [ ok a ↦ str "success" | err exc ↦ str "error" ];
  error_class = elim body [ ok a ↦ str "" | err exc ↦ str (class_name exc) ];
  artifact_path = str "";
}

-- A raise of `finally` takes the place of what the body returned or raised.
abbrev after {ℓ} : {A : Type ℓ} → Result A → Result (Unit {0}) × LogFile → Result A × LogFile
after body (ok _, file) = (body, file)
after body (err exc, file) = (err exc, file)

-- `with logger.track(operation, device_ids): body`
unfoldable pub track {ℓ} :
    {A : Type ℓ} → Ticket → String → Option (List String) → Result A → LogFile → Result A × LogFile
unfolding log entry_for
track ticket operation device_ids body file =
    after body (log (entry_for ticket operation device_ids body) file)
