-- ===== src/GuestMemory/Window.antt =====
-- Where `reserve` and `linear_offset` put guest RAM.
