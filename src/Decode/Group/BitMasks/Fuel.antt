-- ===== src/Decode/Group/BitMasks/Fuel.antt =====
-- The replication loop of `decode_bit_masks`, and the rounds that it takes.
