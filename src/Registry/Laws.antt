-- ===== src/Registry/Laws.antt =====
-- What `get_operation` lets through.
use routeros_inspector_mcp.Base.{
  String, ◌≡◌, refl, Bool, true, ◌&&◌, some, [], ◌∷◌, arith, All, all, contains, Dict, lookup,
  lookup-All, string_eq, keys, IsSorted, sorted-IsSorted, contains-sorted, str_eq, eq_iff,
}
use routeros_inspector_mcp.Errors.{ok}
use routeros_inspector_mcp.Registry.{
  Operation, allowed_timeouts, registry, find_operation, get_operation, list_operations,
}

-- An entry names itself, calls the backend method of its own name, only reads, and waits for one
-- of the allowed times.
pub record IsReadEntry (name : String) (op : Operation) : Type 0 where
  pub named : op.name ≡ name
  pub method : op.backend_method ≡ name
  pub reads : op.read_only ≡ true
  pub waits : contains allowed_timeouts op.timeout_class ≡ true

abbrev check : String × Operation → Bool
check (k, op) =
    str_eq op.name k
    && str_eq op.backend_method k
    && op.read_only
    && contains allowed_timeouts op.timeout_class

all→All : (d : Dict Operation) → all check d ≡ true → All (λ e. check e ≡ true) d
all→All [] h = tt
all→All (e ∷ d) h = (ground arith, all→All d (ground arith))

registry_checked : all check registry ≡ true
unfolding registry
registry_checked = refl

pub find_operation-eq-ok :
    (ops : Dict Operation) (name : String) {op : Operation}
    → find_operation ops name ≡ ok op
    → (lookup name ops ≡ some op) × (op.read_only ≡ true)
unfolding find_operation
find_operation-eq-ok ops name h = ground arith

check-IsReadEntry : (k : String) (op : Operation) → check (k, op) ≡ true → IsReadEntry k op
check-IsReadEntry k op h = record {
  named = ground (arith, eq_iff op.name k);
  method = ground (arith, eq_iff op.backend_method k);
  reads = ground arith;
  waits = ground arith;
}

pub get_operation_lem : (name : String) → get_operation name ≡ find_operation registry name
unfolding get_operation
get_operation_lem name = refl

-- Whatever name a caller gives, an operation that is found is that of its name: it calls the
-- backend method of that name, only reads, and waits for one of the allowed times.
pub get_operation-IsReadEntry :
    (name : String) (op : Operation) → get_operation name ≡ ok op → IsReadEntry name op
get_operation-IsReadEntry name op h = check-IsReadEntry name op (
    lookup-All (λ e. check e ≡ true) name registry (all→All registry registry_checked)
      (find_operation-eq-ok registry name (rw get_operation_lem at h)).0)

-- The operations are listed in order, and are those of the registry.
pub list_operations_lem :
    (name : String)
    → IsSorted list_operations × (contains list_operations name ≡ contains (keys registry) name)
unfolding list_operations
list_operations_lem name = (sorted-IsSorted (keys registry), contains-sorted (keys registry) name)
