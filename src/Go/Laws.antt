-- ===== src/Go/Laws.antt =====
-- The laws of calls over a host state, passed on from the children.
mod Parts
mod Deferred
mod Failed
pub use Parts.*
pub use Deferred.*
pub use Failed.*
