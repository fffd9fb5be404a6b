-- ===== src/IoCapture.antt =====
-- The capture of a traced program's input and output, codetracer-python-recorder/src/runtime/io_capture.
pub mod Events
pub mod Buffer
pub mod Batcher
