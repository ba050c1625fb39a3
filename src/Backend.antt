-- ===== src/Backend.antt =====
-- backends/base.py: what the service asks of a backend. A method is called by its name, with the
-- device and the keyword arguments; it returns a value or raises.
pub mod Fixture
pub mod Live
pub mod Methods
use routeros_inspector_mcp.Base.{String}
use routeros_inspector_mcp.Errors.{Result}
use routeros_inspector_mcp.Value.{Value, Fields}

pub record Backend : Type 0 where
  pub call : String → String → Fields → Result Value
