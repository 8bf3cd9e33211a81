-- ===== src/Page/Init.antt =====
-- src/page.rs, a fresh page.
