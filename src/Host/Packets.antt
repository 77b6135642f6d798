-- ===== src/Host/Packets.antt =====
-- runtime_lib/airhost/queue.cpp: the functions that fill in a packet. Each returns the status beside
-- the packet; fields that a function leaves alone keep what the slot held. An argument of type
-- uint8_t, uint16_t or uint32_t is a number below 2^8, 2^16 or 2^32.
use mlir_air_mirror.Prelude.{ℕ, bit_or, shl64}
use mlir_air_mirror.Queue.{
  Packet, initialize_packet, hsa_packet_type_agent_dispatch, hsa_packet_type_barrier_and,
  hsa_packet_type_barrier_or, air_address_absolute_range, air_address_herd_relative_range,
}
use mlir_air_mirror.Queue.AirPktType

abbrev pub hsa_status_success : ℕ
hsa_status_success = 0

-- `pkt->type = ...; pkt->header = (HSA_PACKET_TYPE_AGENT_DISPATCH << HSA_PACKET_HEADER_TYPE)`.
abbrev finish : Packet → ℕ → ℕ × Packet
finish pkt type =
    (hsa_status_success, record pkt { type = type; header = hsa_packet_type_agent_dispatch })

-- The word `kind << 48 | num_cols << 40 | start_col << 32 | num_rows << 24 | start_row << 16`, in
-- the order of the `|=` statements.
abbrev pub range_word : ℕ → ℕ → ℕ → ℕ → ℕ → ℕ
range_word kind start_col num_cols start_row num_rows =
    bit_or
      (bit_or (bit_or (bit_or (bit_or 0 (shl64 kind 48)) (shl64 num_cols 40)) (shl64 start_col 32))
        (shl64 num_rows 24))
      (shl64 start_row 16)

unfoldable pub air_packet_herd_init : Packet → ℕ → ℕ → ℕ → ℕ → ℕ → ℕ × Packet
unfolding initialize_packet
air_packet_herd_init pkt herd_id start_col num_cols start_row num_rows =
    finish
      (record (initialize_packet pkt) {
        arg0 = range_word air_address_absolute_range start_col num_cols start_row num_rows;
        arg1 = herd_id;
        arg2 = 0;
        arg3 = 0;
      })
      AirPktType.herd_initialize

unfoldable pub air_packet_device_init : Packet → ℕ → ℕ × Packet
unfolding initialize_packet
air_packet_device_init pkt num_cols =
    finish
      (record (initialize_packet pkt) {
        arg0 = bit_or (bit_or 0 (shl64 air_address_absolute_range 48)) (shl64 num_cols 40);
      })
      AirPktType.device_initialize

unfoldable pub air_packet_get_capabilities : Packet → ℕ → ℕ × Packet
unfolding initialize_packet
air_packet_get_capabilities pkt return_address =
    finish (record (initialize_packet pkt) { return_address = return_address })
      AirPktType.get_capabilities

unfoldable pub air_packet_hello : Packet → ℕ → ℕ × Packet
unfolding initialize_packet
air_packet_hello pkt value =
    finish (record (initialize_packet pkt) { arg0 = value }) AirPktType.hello

unfoldable pub air_packet_post_rdma_wqe : Packet → ℕ → ℕ → ℕ → ℕ → ℕ → ℕ → ℕ → ℕ × Packet
unfolding initialize_packet
air_packet_post_rdma_wqe pkt remote_vaddr local_paddr len op key qpid ernic_sel =
    finish
      (record (initialize_packet pkt) {
        arg0 = remote_vaddr;
        arg1 = local_paddr;
        arg2 =
            bit_or
              (bit_or (bit_or (bit_or (shl64 ernic_sel 56) (shl64 qpid 48)) (shl64 key 40))
                (shl64 op 32))
              len;
      })
      AirPktType.post_rdma_wqe

unfoldable pub air_packet_post_rdma_recv : Packet → ℕ → ℕ → ℕ → ℕ → ℕ × Packet
unfolding initialize_packet
air_packet_post_rdma_recv pkt local_paddr len qpid ernic_sel =
    finish
      (record (initialize_packet pkt) {
        arg0 = local_paddr;
        arg1 = bit_or (bit_or (shl64 ernic_sel 48) (shl64 len 16)) qpid;
      })
      AirPktType.post_rdma_recv

unfoldable pub air_packet_tile_status : Packet → ℕ → ℕ → ℕ × Packet
unfolding initialize_packet
air_packet_tile_status pkt col row =
    finish (record (initialize_packet pkt) { arg0 = col; arg1 = row }) AirPktType.core_status

unfoldable pub air_packet_dma_status : Packet → ℕ → ℕ → ℕ × Packet
unfolding initialize_packet
air_packet_dma_status pkt col row =
    finish (record (initialize_packet pkt) { arg0 = col; arg1 = row }) AirPktType.tdma_status

unfoldable pub air_packet_shimdma_status : Packet → ℕ → ℕ × Packet
unfolding initialize_packet
air_packet_shimdma_status pkt col =
    finish (record (initialize_packet pkt) { arg0 = col; arg1 = 0 }) AirPktType.sdma_status

unfoldable pub air_packet_put_stream : Packet → ℕ → ℕ → ℕ × Packet
unfolding initialize_packet
air_packet_put_stream pkt stream value =
    finish (record (initialize_packet pkt) { arg0 = stream; arg1 = value }) AirPktType.put_stream

unfoldable pub air_packet_get_stream : Packet → ℕ → ℕ → ℕ × Packet
unfolding initialize_packet
air_packet_get_stream pkt stream return_address =
    finish (record (initialize_packet pkt) { arg0 = stream; return_address = return_address })
      AirPktType.get_stream

unfoldable pub air_packet_cdma_configure : Packet → ℕ → ℕ → ℕ → ℕ × Packet
unfolding initialize_packet
air_packet_cdma_configure pkt dest source len =
    finish (record (initialize_packet pkt) { arg0 = dest; arg1 = source; arg2 = len })
      AirPktType.configure

unfoldable pub air_packet_cdma_memcpy : Packet → ℕ → ℕ → ℕ → ℕ × Packet
unfolding initialize_packet
air_packet_cdma_memcpy pkt dest source len =
    finish (record (initialize_packet pkt) { arg0 = dest; arg1 = source; arg2 = len })
      AirPktType.cdma

unfoldable pub air_packet_aie_lock_range : Packet → ℕ → ℕ → ℕ → ℕ → ℕ → ℕ → ℕ → ℕ → ℕ × Packet
unfolding initialize_packet
air_packet_aie_lock_range pkt herd_id lock_id acq_rel value start_col num_cols start_row num_rows =
    finish
      (record (initialize_packet pkt) {
        arg0 = range_word air_address_herd_relative_range start_col num_cols start_row num_rows;
        arg1 = lock_id;
        arg2 = acq_rel;
        arg3 = value;
      })
      AirPktType.xaie_lock

unfoldable pub air_packet_aie_lock : Packet → ℕ → ℕ → ℕ → ℕ → ℕ → ℕ → ℕ × Packet
unfolding air_packet_aie_lock_range
air_packet_aie_lock pkt herd_id lock_id acq_rel value col row =
    air_packet_aie_lock_range pkt herd_id lock_id acq_rel value col 1 row 1

-- The arguments of `air_packet_nd_memcpy` behind `pkt` and the unused `herd_id`.
pub record NdArgs : Type 0 where
  pub col : ℕ
  pub direction : ℕ
  pub channel : ℕ
  pub burst_len : ℕ
  pub memory_space : ℕ
  pub phys_addr : ℕ
  pub transfer_length1d : ℕ
  pub transfer_length2d : ℕ
  pub transfer_stride2d : ℕ
  pub transfer_length3d : ℕ
  pub transfer_stride3d : ℕ
  pub transfer_length4d : ℕ
  pub transfer_stride4d : ℕ

-- The words `arg[0]`, `arg[2]` and `arg[3]` of `air_packet_nd_memcpy`.
abbrev pub nd_arg0 : NdArgs → ℕ
nd_arg0 a =
    bit_or
      (bit_or
        (bit_or (bit_or (bit_or 0 (shl64 a.memory_space 16)) (shl64 a.channel 24)) (shl64 a.col 32))
        (shl64 a.burst_len 52))
      (shl64 a.direction 60)

abbrev pub nd_arg2 : NdArgs → ℕ
nd_arg2 a =
    bit_or (bit_or a.transfer_length1d (shl64 a.transfer_length2d 32))
      (shl64 a.transfer_stride2d 48)

abbrev pub nd_arg3 : NdArgs → ℕ
nd_arg3 a =
    bit_or
      (bit_or (bit_or a.transfer_length3d (shl64 a.transfer_stride3d 16))
        (shl64 a.transfer_length4d 32))
      (shl64 a.transfer_stride4d 48)

unfoldable pub air_packet_nd_memcpy : Packet → NdArgs → ℕ × Packet
unfolding initialize_packet
air_packet_nd_memcpy pkt a =
    finish
      (record (initialize_packet pkt) {
        arg0 = nd_arg0 a;
        arg1 = a.phys_addr;
        arg2 = nd_arg2 a;
        arg3 = nd_arg3 a;
      })
      AirPktType.nd_memcpy

-- `air_packet_barrier_and` and `air_packet_barrier_or` write the dependences and the header.
abbrev barrier : Packet → ℕ → ℕ → ℕ → ℕ → ℕ → ℕ → ℕ × Packet
barrier pkt header d0 d1 d2 d3 d4 = (
  hsa_status_success,
  record pkt { return_address = d0; arg0 = d1; arg1 = d2; arg2 = d3; arg3 = d4; header = header },
)

unfoldable pub air_packet_barrier_and : Packet → ℕ → ℕ → ℕ → ℕ → ℕ → ℕ × Packet
air_packet_barrier_and pkt d0 d1 d2 d3 d4 = barrier pkt hsa_packet_type_barrier_and d0 d1 d2 d3 d4

unfoldable pub air_packet_barrier_or : Packet → ℕ → ℕ → ℕ → ℕ → ℕ → ℕ × Packet
air_packet_barrier_or pkt d0 d1 d2 d3 d4 = barrier pkt hsa_packet_type_barrier_or d0 d1 d2 d3 d4
