-- ===== src/Console/Tests.antt =====
-- A few keys.
