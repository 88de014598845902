-- ===== src/Trace/Format.antt =====
-- crates/core/src/trace/format.rs: the constants of the CDT stream, and the hash of the feature mask.
use coracle.Prelude.{ℕ, ◌*◌, ◌%◌, ◌^◌, bit_xor, List, [], ◌∷◌}
use coracle.Trace.{MarkerKind, EndReason, DisconType}

abbrev pub magic : List ℕ
magic = 67 ∷ 79 ∷ 82 ∷ 65 ∷ 67 ∷ 76 ∷ 69 ∷ 1 ∷ []

abbrev pub format_version : ℕ
format_version = 1

abbrev pub producer_coracle : ℕ
producer_coracle = 2

abbrev pub file_header_bytes : ℕ
file_header_bytes = 80

abbrev pub record_header_bytes : ℕ
record_header_bytes = 8

abbrev pub reg_delta_bytes : ℕ
reg_delta_bytes = 16

abbrev pub block_prefix_bytes : ℕ
block_prefix_bytes = 32

abbrev pub producer_name_bytes : ℕ
producer_name_bytes = 32

-- The tags of `record_type`.
abbrev pub block : ℕ
block = 1

abbrev pub exception : ℕ
exception = 2

abbrev pub marker : ℕ
marker = 3

abbrev pub end : ℕ
end = 4

-- The flags of `stream_flags`.
abbrev pub precise_fp : ℕ
precise_fp = 1

abbrev pub has_vregs : ℕ
has_vregs = 2

abbrev pub block_deltas : ℕ
block_deltas = 8

-- `kind as u64`, `reason as u64` and `discon as u32`.
unfoldable pub marker_code : MarkerKind → ℕ
marker_code MarkerKind.trace_start = 1
marker_code MarkerKind.reset = 2
marker_code MarkerKind.annotation = 3

unfoldable pub reason_code : EndReason → ℕ
reason_code EndReason.normal = 0
reason_code EndReason.limit_reached = 1
reason_code EndReason.guest_halt = 2

unfoldable pub discon_code : DisconType → ℕ
discon_code DisconType.interrupt = 1
discon_code DisconType.exception = 2
discon_code DisconType.host_call = 4

-- The bytes of the text.
abbrev feature_mask : List ℕ
feature_mask =
    97 ∷ 114 ∷ 109 ∷ 118 ∷ 56 ∷ 46 ∷ 48 ∷ 45 ∷ 97 ∷ 43 ∷ 101 ∷ 108 ∷ 49 ∷ 43 ∷ 110 ∷ 111 ∷ 108 ∷ 115
    ∷ 101 ∷ 43 ∷ 110 ∷ 111 ∷ 115 ∷ 118 ∷ 101 ∷ 43 ∷ 110 ∷ 111 ∷ 112 ∷ 97 ∷ 117 ∷ 116 ∷ 104 ∷ 43
    ∷ 110 ∷ 111 ∷ 109 ∷ 116 ∷ 101 ∷ 43 ∷ 110 ∷ 111 ∷ 98 ∷ 116 ∷ 105 ∷ 43 ∷ 113 ∷ 101 ∷ 109 ∷ 117
    ∷ 99 ∷ 114 ∷ 121 ∷ 112 ∷ 116 ∷ 111 ∷ []

abbrev fnv_offset_basis : ℕ
fnv_offset_basis = 0xcbf29ce484222325

abbrev fnv_prime : ℕ
fnv_prime = 0x100000001b3

-- The loop of `fnv1a` over the bytes that are left.
unfoldable pub fnv1a_from : ℕ → List ℕ → ℕ
fnv1a_from hash [] = hash
fnv1a_from hash (byte ∷ bytes) = fnv1a_from (bit_xor hash byte * fnv_prime % 2 ^ 64) bytes

unfoldable pub fnv1a : List ℕ → ℕ
unfolding fnv1a_from
fnv1a text = fnv1a_from fnv_offset_basis text

unfoldable pub cpu_feature_id : ℕ
unfolding fnv1a
cpu_feature_id = fnv1a feature_mask
