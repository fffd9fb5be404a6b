-- ===== src/Reconstructor.antt =====
-- codetracer-python-recorder/src/runtime/assignment_reconstructor.rs: the stores of each source line
-- with the shape of what is stored, read off decoded bytecode. Python's `dis` gives the decoded
-- instructions: they are an argument. A name is a `String`, an `i64` a `ℤ`.
pub mod Window
pub mod Table
pub mod Shapes
pub mod Answers
