-- ===== src/Decode/SimdFp/Lanes.antt =====
-- The operand helpers that the files of crates/core/src/decode/group/simd_fp share: the register
-- fields, scalar, vector and element operands, and the element sizes.
use coracle.Prelude.{ℕ, ◌/◌, Bool, true, false, Option, ◌==◌, if◌then◌else◌}
use coracle.Decode.Operand.{ElemSize, VecOperand, VecShape, VecHalf, elem_bits}
use coracle.Decode.Group.Fields.{bits, flag}

abbrev pub rd : ℕ → ℕ
rd encoding = bits encoding 4 0

abbrev pub rn : ℕ → ℕ
rn encoding = bits encoding 9 5

abbrev pub rm : ℕ → ℕ
rm encoding = bits encoding 20 16

abbrev pub ra : ℕ → ℕ
ra encoding = bits encoding 14 10

-- The format that `ftype` names.
unfoldable pub float_size : ℕ → Option ElemSize
float_size ftype =
    if ftype == 0
    then Option.some ElemSize.s32
    else if ftype == 1
    then Option.some ElemSize.d64
    else if ftype == 3
    then Option.some ElemSize.h16
    else Option.none

-- `==` on sizes.
abbrev pub same_size : ElemSize → ElemSize → Bool
same_size a b = elem_bits a == elem_bits b

abbrev pub is_d64 : ElemSize → Bool
is_d64 ElemSize.d64 = true
is_d64 _ = false

abbrev pub scalar : ℕ → ElemSize → VecOperand
scalar index size = record { reg = record { index = index }; shape = VecShape.scalar size }

abbrev pub is_quad : ℕ → Bool
is_quad encoding = flag encoding 30

abbrev pub lanes : ElemSize → Bool → ℕ
lanes elem quad = (if quad then 128 else 64) / elem_bits elem

abbrev pub vector : ℕ → ElemSize → Bool → VecOperand
vector index elem quad = record {
  reg = record { index = index };
  shape = VecShape.vector elem (lanes elem quad) (if quad then VecHalf.full else VecHalf.low);
}

abbrev pub element : ℕ → ElemSize → ℕ → VecOperand
element index elem lane = record {
  reg = record { index = index };
  shape = VecShape.element elem lane;
}
