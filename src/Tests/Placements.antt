-- ===== src/Tests/Placements.antt =====
-- Process 42, a shell that becomes firefox, on the machine.
