-- ===== src/Decode/Operand.antt =====
-- crates/core/src/decode/operand.rs: the operand vocabulary of the instruction groups.
use coracle.Prelude.{ℕ, ◌%◌, ◌^◌, Bool, true, false, ◌==◌, if◌then◌else◌}
use coracle.Reg.{Gpr, Vec}

pub data RegWidth : Type 0 where
  w32 x64 : RegWidth

unfoldable pub from_sf : Bool → RegWidth
from_sf sf = if sf then RegWidth.x64 else RegWidth.w32

abbrev pub width_bits : RegWidth → ℕ
width_bits RegWidth.w32 = 32
width_bits RegWidth.x64 = 64

-- `value & width.mask()`.
abbrev pub mask : RegWidth → ℕ → ℕ
mask RegWidth.w32 value = value % 2 ^ 32
mask RegWidth.x64 value = value % 2 ^ 64

-- `width == RegWidth::W32`.
abbrev pub is_w32 : RegWidth → Bool
is_w32 RegWidth.w32 = true
is_w32 RegWidth.x64 = false

pub data ShiftKind : Type 0 where
  lsl lsr asr ror : ShiftKind

pub record ShiftedReg : Type 0 where
  pub reg : Gpr
  pub kind : ShiftKind
  pub amount : ℕ

pub data ExtendKind : Type 0 where
  uxtb uxth uxtw uxtx sxtb sxth sxtw sxtx : ExtendKind

-- `match option & 0b111`.
unfoldable pub from_option : ℕ → ExtendKind
from_option option =
    let o = option % 8 in
    if o == 0
    then ExtendKind.uxtb
    else if o == 1
    then ExtendKind.uxth
    else if o == 2
    then ExtendKind.uxtw
    else if o == 3
    then ExtendKind.uxtx
    else if o == 4
    then ExtendKind.sxtb
    else if o == 5
    then ExtendKind.sxth
    else if o == 6
    then ExtendKind.sxtw
    else ExtendKind.sxtx

abbrev pub source_bits : ExtendKind → ℕ
source_bits ExtendKind.uxtb = 8
source_bits ExtendKind.sxtb = 8
source_bits ExtendKind.uxth = 16
source_bits ExtendKind.sxth = 16
source_bits ExtendKind.uxtw = 32
source_bits ExtendKind.sxtw = 32
source_bits ExtendKind.uxtx = 64
source_bits ExtendKind.sxtx = 64

abbrev pub is_signed : ExtendKind → Bool
is_signed ExtendKind.sxtb = true
is_signed ExtendKind.sxth = true
is_signed ExtendKind.sxtw = true
is_signed ExtendKind.sxtx = true
is_signed _ = false

pub record ExtendedReg : Type 0 where
  pub reg : Gpr
  pub kind : ExtendKind
  pub amount : ℕ

pub data Cond : Type 0 where
  eq ne cs cc mi pl vs vc hi ls ge lt gt le al nv : Cond

-- `match bits & 0b1111`.
unfoldable pub cond_from_bits : ℕ → Cond
cond_from_bits bits =
    let b = bits % 16 in
    if b == 0
    then Cond.eq
    else if b == 1
    then Cond.ne
    else if b == 2
    then Cond.cs
    else if b == 3
    then Cond.cc
    else if b == 4
    then Cond.mi
    else if b == 5
    then Cond.pl
    else if b == 6
    then Cond.vs
    else if b == 7
    then Cond.vc
    else if b == 8
    then Cond.hi
    else if b == 9
    then Cond.ls
    else if b == 10
    then Cond.ge
    else if b == 11
    then Cond.lt
    else if b == 12
    then Cond.gt
    else if b == 13
    then Cond.le
    else if b == 14
    then Cond.al
    else Cond.nv

unfoldable pub invert : Cond → Cond
invert Cond.eq = Cond.ne
invert Cond.ne = Cond.eq
invert Cond.cs = Cond.cc
invert Cond.cc = Cond.cs
invert Cond.mi = Cond.pl
invert Cond.pl = Cond.mi
invert Cond.vs = Cond.vc
invert Cond.vc = Cond.vs
invert Cond.hi = Cond.ls
invert Cond.ls = Cond.hi
invert Cond.ge = Cond.lt
invert Cond.lt = Cond.ge
invert Cond.gt = Cond.le
invert Cond.le = Cond.gt
invert Cond.al = Cond.al
invert Cond.nv = Cond.nv

pub data VecHalf : Type 0 where
  full low high : VecHalf

pub data ElemSize : Type 0 where
  b8 h16 s32 d64 q128 : ElemSize

abbrev pub elem_bits : ElemSize → ℕ
elem_bits ElemSize.b8 = 8
elem_bits ElemSize.h16 = 16
elem_bits ElemSize.s32 = 32
elem_bits ElemSize.d64 = 64
elem_bits ElemSize.q128 = 128

-- `match size & 0b11`.
unfoldable pub from_size : ℕ → ElemSize
from_size size =
    let s = size % 4 in
    if s == 0
    then ElemSize.b8
    else if s == 1
    then ElemSize.h16
    else if s == 2
    then ElemSize.s32
    else ElemSize.d64

pub data VecShape : Type 0 where
  scalar : ElemSize → VecShape
  vector : (elem : ElemSize) (count : ℕ) (half : VecHalf) → VecShape
  element : (elem : ElemSize) (index : ℕ) → VecShape

pub data RoundMode : Type 0 where
  current nearest nearest_away plus minus zero odd : RoundMode

pub record VecOperand : Type 0 where
  pub reg : Vec
  pub shape : VecShape
