-- ===== src/Protocol/Tests.antt =====
-- Packets written by the host and read by the controller.
use mlir_air_mirror.Prelude.{◌≡◌, arith}
use mlir_air_mirror.Queue.{Packet}
use mlir_air_mirror.Host.Packets.{NdArgs, air_packet_nd_memcpy}
use mlir_air_mirror.Controller.Decode.{nd_command}
use mlir_air_mirror.Protocol.{FitsNd, command_of, nd_command-air_packet_nd_memcpy}

abbrev blank : Packet
blank = record {
  header = 0;
  type = 0;
  reserved0 = 0;
  return_address = 0;
  arg0 = 0;
  arg1 = 0;
  arg2 = 0;
  arg3 = 0;
  reserved1 = 0;
  completion_signal = 0;
}

abbrev copy_args : NdArgs
copy_args = record {
  col = 2;
  direction = 1;
  channel = 1;
  burst_len = 4;
  memory_space = 2;
  phys_addr = 0x1000;
  transfer_length1d = 64;
  transfer_length2d = 2;
  transfer_stride2d = 128;
  transfer_length3d = 3;
  transfer_stride3d = 512;
  transfer_length4d = 1;
  transfer_stride4d = 0;
}

copy_args-FitsNd : FitsNd copy_args
copy_args-FitsNd = record {
  memory_space = omega arith;
  channel = omega arith;
  col = omega arith;
  burst_len = omega arith;
  direction = omega arith;
  length1d = omega arith;
  length2d = omega arith;
  stride2d = omega arith;
  length3d = omega arith;
  stride3d = omega arith;
  length4d = omega arith;
  stride4d = omega arith;
}

nd_command-air_packet_nd_memcpy_example :
    let (status, sent) = air_packet_nd_memcpy blank copy_args in
    (status ≡ 0) × (nd_command sent ≡ command_of copy_args) × (sent.arg1 ≡ 0x1000)
nd_command-air_packet_nd_memcpy_example =
    nd_command-air_packet_nd_memcpy blank copy_args copy_args-FitsNd
