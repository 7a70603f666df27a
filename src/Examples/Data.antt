-- ===== src/Examples/Data.antt =====
-- Data of the runs.
mod Networks
mod Wires
mod Work
pub use Networks.*
pub use Wires.{plain_wire, plain_wire-IsDocumented, few_rows, few_rows-IsConsistent}
pub use Work.*
