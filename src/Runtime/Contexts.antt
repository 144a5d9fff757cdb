-- ===== src/Runtime/Contexts.antt =====
-- Scope contexts of futures (src/runtime/scope_context.rs).
use eventline.Writer.{Writer}
use eventline.Runtime.{Runtime}
