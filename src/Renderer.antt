-- ===== src/Renderer.antt =====
-- src/apiscope/trace_renderer.cpp: the check of a received event, and its text and JSON forms.
pub mod Parse
pub mod Format
pub mod Text
pub mod Jsonl
pub mod Escape
pub mod Clear
pub mod FieldNames
pub mod Shown
pub mod Values
pub mod Line
