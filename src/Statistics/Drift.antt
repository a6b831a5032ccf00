-- ===== src/Statistics/Drift.antt =====
-- src/dbHandler.js: how far the counters of a tenant are from its rows.
