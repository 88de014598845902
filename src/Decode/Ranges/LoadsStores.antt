-- ===== src/Decode/Ranges/LoadsStores.antt =====
-- The operands of the loads and stores.
use coracle.Prelude.{ℕ, zero, suc, ◌^◌, ◌<◌, ◌≤◌, refl, arith, Option, ltb, ◌==◌, ◌&&◌, if_intro}
use coracle.Decode.Operand.{from_sf}
use coracle.Decode.Address.{AddrMode}
use coracle.Decode.Instruction.{unallocated, new, with_width}
use coracle.Decode.Group.Fields.{bits, flag}
use coracle.Decode.Group.LoadsStores.{
  decode, register_offset, index_writeback, single_register_address, single_register_at,
  single_register, literal, pair_of, pair, exclusive_size, exclusive_of, exclusive,
  loads_and_stores,
}
use coracle.Decode.Ranges.{IsDecoded, unallocated-IsDecoded, IsAddress, fields}

-- Where an address is named, it is in range.
abbrev IsSome : Option AddrMode → Type 0
IsSome Option.none = Unit {0}
IsSome (Option.some addr) = IsAddress addr

single_register_address-IsSome :
    (encoding size_field : ℕ)
    → size_field < 4
    → IsSome (single_register_address encoding size_field)
unfolding single_register_address register_offset index_writeback
single_register_address-IsSome encoding size_field h = ground (arith, fields encoding)

-- A two-bit size field names one, two, four or eight bytes.
bytes-bounds : (size_field : ℕ) → size_field < 4 → (1 ≤ 2 ^ size_field) × (2 ^ size_field ≤ 8)
bytes-bounds zero h = omega arith
bytes-bounds (suc zero) h = omega arith
bytes-bounds (suc (suc zero)) h = omega arith
bytes-bounds (suc (suc (suc zero))) h = omega arith
bytes-bounds (suc (suc (suc (suc n)))) h = absurd (omega arith)

single_register_at-IsDecoded :
    (encoding size_field opc : ℕ) (addr : AddrMode)
    → size_field < 4
    → IsAddress addr
    → IsDecoded encoding (single_register_at encoding size_field opc addr)
unfolding IsDecoded single_register_at decode unallocated new with_width
single_register_at-IsDecoded encoding size_field opc addr small h =
    ground (arith, fields encoding, bytes-bounds size_field small)

single_register-IsDecoded : (encoding : ℕ) → IsDecoded encoding (single_register encoding)
unfolding IsDecoded single_register unallocated new
single_register-IsDecoded encoding =
    go (single_register_address encoding (bits encoding 31 30))
      (single_register_address-IsSome encoding (bits encoding 31 30) (omega arith))
  where
    go :
        (found : Option AddrMode)
        → IsSome found
        → IsDecoded encoding (elim found [
          | Option.none ↦ unallocated encoding
          | Option.some addr ↦
              single_register_at encoding (bits encoding 31 30) (bits encoding 23 22) addr
        ])
    go Option.none h = (refl, tt)
    go (Option.some addr) h =
        single_register_at-IsDecoded encoding (bits encoding 31 30) (bits encoding 23 22) addr
          (omega arith) h

literal-IsDecoded : (encoding : ℕ) → IsDecoded encoding (literal encoding)
unfolding IsDecoded literal new with_width
literal-IsDecoded encoding = ground (arith, fields encoding)

pair-IsDecoded : (encoding : ℕ) → IsDecoded encoding (pair encoding)
unfolding IsDecoded pair pair_of unallocated new with_width
pair-IsDecoded encoding = ground (arith, fields encoding)

exclusive-IsDecoded : (encoding : ℕ) → IsDecoded encoding (exclusive encoding)
unfolding IsDecoded exclusive exclusive_of exclusive_size unallocated new with_width from_sf
exclusive-IsDecoded encoding =
    ground (arith, fields encoding, bytes-bounds (bits encoding 31 30) (omega arith))

pub loads_and_stores-IsDecoded : (encoding : ℕ) → IsDecoded encoding (loads_and_stores encoding)
unfolding loads_and_stores
loads_and_stores-IsDecoded encoding =
    if_intro (IsDecoded encoding) (flag encoding 26) (unallocated-IsDecoded encoding) (
      if_intro (IsDecoded encoding) (ltb (bits encoding 29 28) 2 && flag encoding 24)
        (unallocated-IsDecoded encoding)
        (if_intro (IsDecoded encoding) (bits encoding 29 28 == 0) (exclusive-IsDecoded encoding) (
          if_intro (IsDecoded encoding) (bits encoding 29 28 == 1) (literal-IsDecoded encoding) (
            if_intro (IsDecoded encoding) (bits encoding 29 28 == 2) (pair-IsDecoded encoding)
              (single_register-IsDecoded encoding)))))
