-- ===== src/Mcp.antt =====
-- internal/mcpserver and internal/policy: what a caller of the MCP server may do.
pub mod Policy
pub mod Auth
mod Tests
