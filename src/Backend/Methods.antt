-- ===== src/Backend/Methods.antt =====
-- The registry and the backends agree: what may be called is there to be called.
use routeros_inspector_mcp.Base.{
  String, ◌≡◌, refl, Bool, true, ◌&&◌, arith, all, all→All, contains, keys, lookup-All, string_eq,
}
use routeros_inspector_mcp.Errors.{ok}
use routeros_inspector_mcp.Registry.{Operation, registry, get_operation}
use routeros_inspector_mcp.Registry.Laws.{get_operation_lem, find_operation-eq-ok}
use routeros_inspector_mcp.Backend.Fixture.{fixture_methods}
use routeros_inspector_mcp.Backend.Live.{live_methods}

abbrev is_implemented : String × Operation → Bool
is_implemented e =
    contains (keys fixture_methods) e.1.backend_method
    && contains (keys live_methods) e.1.backend_method

registry_implemented : all is_implemented registry ≡ true
unfolding registry keys
registry_implemented = refl

-- An operation that the registry lets through calls a method that both backends have.
pub get_operation_implemented :
    (name : String) (op : Operation)
    → get_operation name ≡ ok op
    → (contains (keys fixture_methods) op.backend_method ≡ true)
      × (contains (keys live_methods) op.backend_method ≡ true)
get_operation_implemented name op h =
    let p =
      lookup-All (λ e. is_implemented e ≡ true) name registry
        (all→All is_implemented registry registry_implemented)
        (find_operation-eq-ok registry name (rw get_operation_lem at h)).0 in
    (ground arith, ground arith)
