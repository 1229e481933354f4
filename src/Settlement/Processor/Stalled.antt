-- ===== src/Settlement/Processor/Stalled.antt =====
-- The settlement worker over a connection that is busy while rows are open, as pgx documents it.
