-- ===== src/Examples/Runs.antt =====
-- The methods, run on the data.
mod Writes
mod Work
pub use Writes.*
pub use Work.*
