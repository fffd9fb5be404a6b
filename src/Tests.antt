-- ===== src/Tests.antt =====
-- The theorems at concrete inputs, one module for each part of the recorder.
mod IoCapture
mod Activation
mod Policy
mod FdMirror
mod Reconstructor
mod Tracer
mod Lifecycle
mod Enricher
mod Encoder
mod ModuleNames
mod Values
mod Stepping
mod Coordinator
mod Handlers
mod FilterEngine
mod Monitoring
