-- ===== src/Creation/Roles.antt =====
-- Who may create tasks below whom.
