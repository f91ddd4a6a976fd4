-- ===== src/ConsistLog/Tests.antt =====
-- The witnesses of the theorems on names.
