-- ===== src/Decode/Op.antt =====
-- crates/core/src/decode/op.rs: what an instruction computes.
use coracle.Prelude.{Bool, true, false}

pub data Op : Type 0 where
  unallocated add sub adc sbc and orr eor bic orn eon movz movn movk adr adrp sbfm bfm ubfm : Op
  extr lslv lsrv asrv rorv csel csinc csinv csneg ccmp ccmn madd msub smaddl smsubl umaddl : Op
  umsubl smulh umulh sdiv udiv rbit rev16 rev32 rev clz cls b bl br blr ret cbz cbnz tbz : Op
  tbnz svc hvc smc brk hlt nop wfi wfe yield dmb dsb isb msr mrs eret clrex sev ldr str ldp : Op
  stp ldar stlr prfm ld1 ld2 ld3 ld4 ld1r st1 st2 st3 st4 fmov fadd fsub fmul fdiv fneg : Op
  fabs fsqrt fmadd fmsub fcmp fccmp fcsel fcvt fcvtn fcvtl frint fcvts fcvtu fmla fmls fmax : Op
  fmin fcvtzs fcvtzu scvtf ucvtf vec_add vec_sub vec_and vec_orr vec_eor vec_cmeq vec_mul : Op
  vec_mla vec_mls vec_bsl vec_bit vec_bif uaddl saddl umull smull xtn shrn ushl sshl movi : Op
  mvni dup ins umov smov tbl tbx ext fmov_imm fmov_to_vec fmov_from_vec ins_gpr fnmadd : Op
  fnmsub fnmul fmaxnm fminnm fcmpe fccmpe vec_bic vec_orn vec_not vec_cmhi vec_cmhs : Op
  vec_cmgt vec_cmge vec_shl vec_ushr vec_sshr vec_neg vec_abs vec_cnt vec_rev64 vec_rev16 : Op
  uminv umaxv addv addp zip1 zip2 uzp1 uzp2 trn1 trn2 : Op

unfoldable pub is_unallocated : Op → Bool
is_unallocated Op.unallocated = true
is_unallocated _ = false

-- The opcodes that merge into their destination.
unfoldable reads_destination : Op → Bool
reads_destination Op.movk = true
reads_destination Op.bfm = true
reads_destination Op.vec_bsl = true
reads_destination Op.fmla = true
reads_destination Op.ins = true
reads_destination Op.fmls = true
reads_destination Op.vec_mla = true
reads_destination Op.vec_mls = true
reads_destination Op.vec_bit = true
reads_destination Op.vec_bif = true
reads_destination Op.ins_gpr = true
reads_destination Op.tbx = true
reads_destination _ = false
