-- ===== src/Mem/PageTable/Tests.antt =====
-- Two pages are mapped by a root table without entries, so that both tables below it are created.
