-- ===== src/Tlv/MsgType.antt =====
-- `enum class MsgType : uint16_t`: a cast from any 16-bit number is a value, so it is a number.
use dns_plus_plus.Base.{ℕ}

abbrev pub subscribe : ℕ
subscribe = 0x0001

abbrev pub publish : ℕ
publish = 0x0002

abbrev pub heartbeat : ℕ
heartbeat = 0x0003

abbrev pub hello : ℕ
hello = 0x0004

abbrev pub hello_ack : ℕ
hello_ack = 0x0005

abbrev pub region_update : ℕ
region_update = 0x0006

abbrev pub broker_forward : ℕ
broker_forward = 0x0007

abbrev pub stats_request : ℕ
stats_request = 0x0008

abbrev pub stats_response : ℕ
stats_response = 0x0009
