-- ===== src/Tlv/TlvType.antt =====
-- `enum class TlvType : uint16_t`, as numbers.
use dns_plus_plus.Base.{ℕ}

abbrev pub coordinates : ℕ
coordinates = 0x0001

abbrev pub flags : ℕ
flags = 0x0002

abbrev pub service_name : ℕ
service_name = 0x0003

abbrev pub brake_limit : ℕ
brake_limit = 0x0004

abbrev pub region : ℕ
region = 0x0005

abbrev pub stats_data : ℕ
stats_data = 0x0006

abbrev pub stats_data_ext : ℕ
stats_data_ext = 0x0007

abbrev pub blinded_value : ℕ
blinded_value = 0x0010

abbrev pub blinded_value_hi : ℕ
blinded_value_hi = 0x0011

abbrev pub blinded_cover : ℕ
blinded_cover = 0x0012
