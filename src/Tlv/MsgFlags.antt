-- ===== src/Tlv/MsgFlags.antt =====
-- The bits of the FLAGS field. The code only tests `flags & bit`.
use Prim.Native.Nat.{bit_and}
use dns_plus_plus.Base.{ℕ, Bool, not, ◌==◌}

abbrev pub no_flags : ℕ
no_flags = 0x00000000

abbrev pub query_mode : ℕ
query_mode = 0x00000001

abbrev pub from_child : ℕ
from_child = 0x00000002

abbrev pub from_parent : ℕ
from_parent = 0x00000004

-- `(flags & bit)` as a condition.
unfoldable pub has_flag : ℕ → ℕ → Bool
has_flag flags bit = not (bit_and flags bit == 0)
