-- ===== src/Queue/AirPktType.antt =====
-- The AIR_PKT_TYPE_ values that a function of the host or a case of the controller uses. (air_queue.h)
use Prim.Native.Nat.{ℕ}

abbrev pub invalid : ℕ
invalid = 0x0000

abbrev pub put_stream : ℕ
put_stream = 0x0001

abbrev pub get_stream : ℕ
get_stream = 0x0002

abbrev pub sdma_status : ℕ
sdma_status = 0x0003

abbrev pub tdma_status : ℕ
tdma_status = 0x0004

abbrev pub core_status : ℕ
core_status = 0x0005

abbrev pub device_initialize : ℕ
device_initialize = 0x0010

abbrev pub herd_initialize : ℕ
herd_initialize = 0x0011

abbrev pub hello : ℕ
hello = 0x0012

abbrev pub get_capabilities : ℕ
get_capabilities = 0x0014

abbrev pub get_info : ℕ
get_info = 0x0015

abbrev pub xaie_lock : ℕ
xaie_lock = 0x0020

abbrev pub cdma : ℕ
cdma = 0x030

abbrev pub configure : ℕ
configure = 0x031

abbrev pub post_rdma_wqe : ℕ
post_rdma_wqe = 0x040

abbrev pub post_rdma_recv : ℕ
post_rdma_recv = 0x041

abbrev pub nd_memcpy : ℕ
nd_memcpy = 0x0103
