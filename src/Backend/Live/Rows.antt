-- ===== src/Backend/Live/Rows.antt =====
-- backends/routeros_api.py: the rows that a device prints, as dicts, and which of them are kept.
use Prim.Native.String.{[] as stop, ◌∷◌ as ◌◂◌}
use routeros_inspector_mcp.Base.{
  ℕ, zero, suc, ◌-◌, String, code, Bool, false, ◌||◌, List, [], ◌∷◌, pos, string_eq, length, any,
  nat_eq, str_eq, if◌then◌else◌,
}
use routeros_inspector_mcp.Errors.{other_error, Result, ok, err}
use routeros_inspector_mcp.Text.{has_part, ends_with}
use routeros_inspector_mcp.Value.{
  Value, bool, int, str, arr, obj, Items, nil, cons, Fields, end, field, get_or, put, to_items,
  of_items, is_str,
}
use routeros_inspector_mcp.Backend.Live.Library.{
  ApiValue, text, number, flag, octets, sequence, ApiItem,
}

replace_dots : String → String
replace_dots stop = stop
replace_dots (c ◂ s) = (if nat_eq (code c) b'.' then "/" else c) ◂ replace_dots s

-- A text of Unicode scalars always encodes.
abbrev value_of : (List ℕ → String) → ApiValue → Value
value_of decode (text s) = str s
value_of decode (number i) = int i
value_of decode (flag b) = bool b
value_of decode (octets bytes) = str (decode bytes)
value_of decode (sequence vs) = arr (to_items vs)

item_onto : (List ℕ → String) → ApiItem → Fields → Fields
unfolding put
item_onto decode [] d = d
item_onto decode ((key, value) ∷ item) d =
    item_onto decode item (put (replace_dots key) (value_of decode value) d)

-- `_dict_from_api_item`
unfoldable pub dict_from_api_item : (List ℕ → String) → ApiItem → Fields
unfolding item_onto replace_dots
dict_from_api_item decode item = item_onto decode item end

abbrev pub dicts_of : (List ℕ → String) → List ApiItem → List Fields
dicts_of decode [] = []
dicts_of decode (item ∷ rest) = dict_from_api_item decode item ∷ dicts_of decode rest

abbrev pub dict_items : List Fields → Items
dict_items [] = nil
dict_items (d ∷ ds) = cons (obj d) (dict_items ds)

unfoldable pub summary_of : Fields → Fields
unfolding get_or
summary_of raw = field "name" (get_or raw "name" (str "")) (
    field "uptime" (get_or raw "uptime" (str "")) (
      field "version" (get_or raw "version" (str "")) (
        field "model" (get_or raw "board-name" (get_or raw "model" (str ""))) (
          field "architecture" (get_or raw "architecture-name" (str "")) (
            field "cpu" (get_or raw "cpu" (str "")) (
              field "cpu-count" (get_or raw "cpu-count" (int (pos 0))) (
                field "cpu-load" (get_or raw "cpu-load" (str "")) (
                  field "free-memory" (get_or raw "free-memory" (str "")) (
                    field "total-memory" (get_or raw "total-memory" (str "")) (
                      field "free-hdd-space" (get_or raw "free-hdd-space" (str "")) (
                        field "total-hdd-space" (get_or raw "total-hdd-space" (str "")) (
                          field "boot-clock-speed" (get_or raw "boot-clock-speed" (str "")) (
                            field "bad-blocks" (get_or raw "bad-blocks" (int (pos 0)))
                              end)))))))))))))

abbrev pub drop {ℓ} : {A : Type ℓ} → ℕ → List A → List A
drop zero xs = xs
drop (suc n) [] = []
drop (suc n) (x ∷ xs) = drop n xs

-- `xs[-n:]`, for a positive `n`.
abbrev pub last_entries {ℓ} : {A : Type ℓ} → ℕ → List A → List A
last_entries n xs = drop (length xs - n) xs

unfoldable pub strings_of : Items → Result (List String)
strings_of nil = ok []
strings_of (cons (str s) vs) = elim (strings_of vs) [ ok names ↦ ok (s ∷ names) | err e ↦ err e ]
strings_of (cons v vs) = err (other_error "TypeError")

abbrev pub is_key : String → Fields → Bool
is_key t end = false
is_key t (field k v d) = str_eq k t || is_key t d

-- `[x for x in xs if test(x)]`, where the test may raise.
abbrev pub keep_if : Fields → Result Bool → Result (List Fields) → Result (List Fields)
keep_if d (ok keep) (ok rest) = ok (if keep then d ∷ rest else rest)
keep_if d (err e) rest = err e
keep_if d (ok keep) (err e) = err e

-- `topics: list[str]`
abbrev pub topic_names : Value → Result (List String)
topic_names (arr vs) = strings_of vs
topic_names v = err (other_error "TypeError")

-- `t in log_entry.get("topics", "")`, for one of the topics.
abbrev pub has_topic : List String → Value → Result Bool
has_topic names (str s) = ok (any (has_part s) names)
has_topic names (arr vs) = ok (any (λ t. any (is_str t) (of_items vs)) names)
has_topic names (obj d) = ok (any (λ t. is_key t d) names)
has_topic names v = err (other_error "TypeError")

unfoldable pub matching_logs : List String → List Fields → Result (List Fields)
unfolding get_or has_part
matching_logs names [] = ok []
matching_logs names (log_entry ∷ logs) =
    keep_if log_entry (has_topic names (get_or log_entry "topics" (str "")))
      (matching_logs names logs)

abbrev is_backup_name : Value → Result Bool
is_backup_name (str s) = ok (ends_with s ".backup" || ends_with s ".rsc" || ends_with s ".netrc")
is_backup_name v = err (other_error "AttributeError")

unfoldable pub backup_files : List Fields → Result (List Fields)
unfolding get_or ends_with
backup_files [] = ok []
backup_files (f ∷ files) =
    keep_if f (is_backup_name (get_or f "name" (str ""))) (backup_files files)
