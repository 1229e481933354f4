-- ===== src/Tests/Stalling.antt =====
-- A settlement worker over a busy connection, at a concrete state.
