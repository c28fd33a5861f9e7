-- ===== src/Registry.antt =====
-- mcp/tool_registry.rs: the built-in tools, and the lookup by name.
pub mod Table
pub mod Order
pub mod Lookup
pub mod Search
mod Tests
pub use Table.{ToolRisk, low, medium, high, ToolDefinition, registry}
unfoldable pub use Lookup.{is_low, is_high, text_cmp, binary_search, registry_lookup}
