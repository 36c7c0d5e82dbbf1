-- ===== src/IdentityGen/Draw.antt =====
-- The id of a new identity.
