-- ===== src/Renderer/Line.antt =====
-- RenderTraceEventJsonl writes one line.
