-- ===== src/Decode/Ranges/Groups.antt =====
-- The operands of everything outside the vector and floating-point groups.
