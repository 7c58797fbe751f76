-- ===== src/Types.antt =====
-- The data that the code works on, one child for each source file it stands in, and one for altair.
mod Primitives
mod Operations
mod Blocks
mod States
mod Config
pub mod Altair
pub mod Bellatrix
unfoldable pub use Primitives.*
unfoldable pub use Operations.*
pub use Blocks.*
pub use States.*
pub use Config.*
