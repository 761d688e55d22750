-- ===== src/Commands/Transfer/Progress.antt =====
-- src/commands.rs: a download over a connection that ends.
use pipop_core.Commands.World.{World}
