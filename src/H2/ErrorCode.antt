-- ===== src/H2/ErrorCode.antt =====
-- src/courierust_h2/error.rs: the error codes of RFC 9113.
use courierust.Base.{ℕ, zero, suc, ◌≤◌, ◌≡◌, refl, Option, none, some, arith}

pub data ErrorCode : Type 0 where
  no_error protocol_error internal_error flow_control_error settings_timeout : ErrorCode
  stream_closed frame_size_error refused_stream cancel compression_error : ErrorCode
  connect_error enhance_your_calm inadequate_security http11_required : ErrorCode

abbrev pub as_u32 : ErrorCode → ℕ
as_u32 no_error = 0x0
as_u32 protocol_error = 0x1
as_u32 internal_error = 0x2
as_u32 flow_control_error = 0x3
as_u32 settings_timeout = 0x4
as_u32 stream_closed = 0x5
as_u32 frame_size_error = 0x6
as_u32 refused_stream = 0x7
as_u32 cancel = 0x8
as_u32 compression_error = 0x9
as_u32 connect_error = 0xa
as_u32 enhance_your_calm = 0xb
as_u32 inadequate_security = 0xc
as_u32 http11_required = 0xd

unfoldable pub from_u32 : ℕ → Option ErrorCode
from_u32 zero = some no_error
from_u32 (suc zero) = some protocol_error
from_u32 (suc (suc zero)) = some internal_error
from_u32 (suc (suc (suc zero))) = some flow_control_error
from_u32 (suc (suc (suc (suc zero)))) = some settings_timeout
from_u32 (suc (suc (suc (suc (suc zero))))) = some stream_closed
from_u32 (suc (suc (suc (suc (suc (suc zero)))))) = some frame_size_error
from_u32 (suc (suc (suc (suc (suc (suc (suc zero))))))) = some refused_stream
from_u32 (suc (suc (suc (suc (suc (suc (suc (suc zero)))))))) = some cancel
from_u32 (suc (suc (suc (suc (suc (suc (suc (suc (suc zero))))))))) = some compression_error
from_u32 (suc (suc (suc (suc (suc (suc (suc (suc (suc (suc zero)))))))))) = some connect_error
from_u32 (suc (suc (suc (suc (suc (suc (suc (suc (suc (suc (suc zero))))))))))) =
    some enhance_your_calm
from_u32 (suc (suc (suc (suc (suc (suc (suc (suc (suc (suc (suc (suc zero)))))))))))) =
    some inadequate_security
from_u32 (suc (suc (suc (suc (suc (suc (suc (suc (suc (suc (suc (suc (suc zero))))))))))))) =
    some http11_required
from_u32 (suc (suc (suc (suc (suc (suc (suc (suc (suc (suc (suc (suc (suc (suc _)))))))))))))) =
    none

pub from_u32-as_u32 : (c : ErrorCode) → from_u32 (as_u32 c) ≡ some c
unfolding from_u32
from_u32-as_u32 no_error = refl
from_u32-as_u32 _ = refl

pub as_u32-le : (c : ErrorCode) → as_u32 c ≤ 13
as_u32-le no_error = omega arith
as_u32-le _ = omega arith
