-- ===== src/Tests.antt =====
-- Concrete hosts, tests by evaluation, and the theorems at concrete inputs.
pub mod Hosts
mod SliceTests
mod BufferTests
mod AliveTests
mod CopyTests
mod FillTests
mod NumberTests
mod TextTests
mod EngineTests
mod ModuleTests
mod ConcatTests
mod ConstructTests
mod ShowTests
mod PathTests
mod UtilTests
mod InheritTests
mod SystemTests
mod GlobalTests
mod ToolTests
