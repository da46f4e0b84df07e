-- ===== src/Alu/Shifts.antt =====
-- native/blink/blink/alu.c: the functions that `kBsu` holds, one for each shift or rotation and
-- operand size, and the table itself.
pub mod Laws
use atua_computer.Base.{Width, w8, w16, w32, w64}
use atua_computer.Alu.Table.{AluFunction}
use atua_computer.Alu.Shift.{shl_at, shr_at, sar_at}
use atua_computer.Alu.Rotate.{rol_at, ror_at, rcl_at, rcr_at}

unfoldable pub rol8 : AluFunction
unfolding rol_at
rol8 = rol_at w8

unfoldable pub rol16 : AluFunction
unfolding rol_at
rol16 = rol_at w16

unfoldable pub rol32 : AluFunction
unfolding rol_at
rol32 = rol_at w32

unfoldable pub rol64 : AluFunction
unfolding rol_at
rol64 = rol_at w64

unfoldable pub ror8 : AluFunction
unfolding ror_at
ror8 = ror_at w8

unfoldable pub ror16 : AluFunction
unfolding ror_at
ror16 = ror_at w16

unfoldable pub ror32 : AluFunction
unfolding ror_at
ror32 = ror_at w32

unfoldable pub ror64 : AluFunction
unfolding ror_at
ror64 = ror_at w64

unfoldable pub rcl8 : AluFunction
unfolding rcl_at
rcl8 = rcl_at w8

unfoldable pub rcl16 : AluFunction
unfolding rcl_at
rcl16 = rcl_at w16

unfoldable pub rcl32 : AluFunction
unfolding rcl_at
rcl32 = rcl_at w32

unfoldable pub rcl64 : AluFunction
unfolding rcl_at
rcl64 = rcl_at w64

unfoldable pub rcr8 : AluFunction
unfolding rcr_at
rcr8 = rcr_at w8

unfoldable pub rcr16 : AluFunction
unfolding rcr_at
rcr16 = rcr_at w16

unfoldable pub rcr32 : AluFunction
unfolding rcr_at
rcr32 = rcr_at w32

unfoldable pub rcr64 : AluFunction
unfolding rcr_at
rcr64 = rcr_at w64

unfoldable pub shl8 : AluFunction
unfolding shl_at
shl8 = shl_at w8

unfoldable pub shl16 : AluFunction
unfolding shl_at
shl16 = shl_at w16

unfoldable pub shl32 : AluFunction
unfolding shl_at
shl32 = shl_at w32

unfoldable pub shl64 : AluFunction
unfolding shl_at
shl64 = shl_at w64

unfoldable pub shr8 : AluFunction
unfolding shr_at
shr8 = shr_at w8

unfoldable pub shr16 : AluFunction
unfolding shr_at
shr16 = shr_at w16

unfoldable pub shr32 : AluFunction
unfolding shr_at
shr32 = shr_at w32

unfoldable pub shr64 : AluFunction
unfolding shr_at
shr64 = shr_at w64

unfoldable pub sar8 : AluFunction
unfolding sar_at
sar8 = sar_at w8

unfoldable pub sar16 : AluFunction
unfolding sar_at
sar16 = sar_at w16

unfoldable pub sar32 : AluFunction
unfolding sar_at
sar32 = sar_at w32

unfoldable pub sar64 : AluFunction
unfolding sar_at
sar64 = sar_at w64

-- The rows; `sal` is the second row of `Shl`.
pub data BsuOp : Type 0 where
  rol ror rcl rcr shl shr sal sar : BsuOp

unfoldable pub k_bsu : BsuOp → Width → AluFunction
unfolding rol8 rol16 rol32 rol64 ror8 ror16 ror32 ror64 rcl8 rcl16 rcl32 rcl64 rcr8 rcr16 rcr32
    rcr64 shl8 shl16 shl32 shl64 shr8 shr16 shr32 shr64 sar8 sar16 sar32 sar64
k_bsu rol w8 = rol8
k_bsu rol w16 = rol16
k_bsu rol w32 = rol32
k_bsu rol w64 = rol64
k_bsu ror w8 = ror8
k_bsu ror w16 = ror16
k_bsu ror w32 = ror32
k_bsu ror w64 = ror64
k_bsu rcl w8 = rcl8
k_bsu rcl w16 = rcl16
k_bsu rcl w32 = rcl32
k_bsu rcl w64 = rcl64
k_bsu rcr w8 = rcr8
k_bsu rcr w16 = rcr16
k_bsu rcr w32 = rcr32
k_bsu rcr w64 = rcr64
k_bsu shl w8 = shl8
k_bsu shl w16 = shl16
k_bsu shl w32 = shl32
k_bsu shl w64 = shl64
k_bsu shr w8 = shr8
k_bsu shr w16 = shr16
k_bsu shr w32 = shr32
k_bsu shr w64 = shr64
k_bsu sal w8 = shl8
k_bsu sal w16 = shl16
k_bsu sal w32 = shl32
k_bsu sal w64 = shl64
k_bsu sar w8 = sar8
k_bsu sar w16 = sar16
k_bsu sar w32 = sar32
k_bsu sar w64 = sar64
