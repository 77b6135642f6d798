-- ===== src/Controller/Init.antt =====
-- The packets of runtime_lib/controller/main.cpp that set the device and the herd up and ask for
-- their sizes, as the MicroBlaze build handles them. What is printed is left out.
pub mod Info
use mlir_air_mirror.Prelude.{
  ℕ, zero, suc, ◌+◌, ◌*◌, ◌/◌, ◌%◌, ◌^◌, Bool, true, false, if◌then◌else◌, ◌==◌, min, List, [], ◌∷◌,
  u32, u64, take, ltb,
}
use mlir_air_mirror.Queue.{Packet, packet_set_active, air_address_absolute_range}
use mlir_air_mirror.Controller.Decode.{HerdRange, herd_range}
use mlir_air_mirror.Controller.State.{Ctl, HerdConfig, M, ◌>>=◌, ◌>>◌, pure, out32}
use mlir_air_mirror.Controller.ShimDma.{get_tile_addr}
use mlir_air_mirror.Controller.NdMemcpy.{shim_dma_cols, num_shim_dmas, packet_at, set_packet}

-- `for (ch = 0; ch < 4; ch++)`, with the rounds left.
unfoldable pub disable_channels : ℕ → ℕ → ℕ → M (Unit {0})
disable_channels col zero ch = pure tt
disable_channels col (suc n) ch = do
  out32 (get_tile_addr col 0 + 0x1d140 + 0x8 * ch) 0
  disable_channels col n (ch + 1)

-- `for (bd = 0; bd < 16; bd++)`, with the rounds left.
unfoldable pub invalidate_bds : ℕ → ℕ → ℕ → M (Unit {0})
invalidate_bds col zero bd = pure tt
invalidate_bds col (suc n) bd = do
  out32 (get_tile_addr col 0 + 0x1d008 + 0x14 * bd) 0
  invalidate_bds col n (bd + 1)

unfoldable pub xaie_shim_dma_init : ℕ → M (Unit {0})
unfolding disable_channels invalidate_bds
xaie_shim_dma_init col = do disable_channels col 4 0; invalidate_bds col 16 0

unfoldable pub init_cols : List ℕ → M (Unit {0})
unfolding xaie_shim_dma_init
init_cols [] = pure tt
init_cols (col ∷ cols) = do xaie_shim_dma_init col; init_cols cols

unfoldable pub xaie_device_init : ℕ → M (Unit {0})
unfolding init_cols
xaie_device_init num_cols =
    init_cols (take (if ltb num_shim_dmas num_cols then num_shim_dmas else num_cols) shim_dma_cols)

unfoldable pub xaie_herd_init : ℕ → ℕ → ℕ → ℕ → M (Unit {0})
xaie_herd_init start_col num_cols start_row num_rows c = pure tt (record c {
  herd = record {
    row_start = start_row;
    num_rows = num_rows;
    col_start = start_col;
    num_cols = num_cols;
  };
})

unfoldable pub activate : ℕ → M (Unit {0})
unfolding packet_set_active
activate pkt = set_packet pkt (λ p. packet_set_active p true)

unfoldable pub handle_packet_device_initialize : ℕ → M (Unit {0})
unfolding xaie_device_init activate
handle_packet_device_initialize pkt = do activate pkt; xaie_device_init num_shim_dmas

-- The herd of the command, whose first row is never the shim row.
abbrev pub herd_init : HerdRange → M (Unit {0})
unfolding xaie_herd_init
herd_init range =
    if range.kind == air_address_absolute_range
    then xaie_herd_init range.start_col range.num_cols
        (if range.start_row == 0 then range.start_row + 1 else range.start_row) range.num_rows
    else pure tt

unfoldable pub handle_packet_herd_initialize : ℕ → M (Unit {0})
unfolding activate herd_init herd_range
handle_packet_herd_initialize pkt c =
    (activate pkt >> herd_init (herd_range (packet_at c pkt).arg0)) (record c { setup = true })

-- The answer to an attribute. `user1` and `user2` are the registers that number the controllers
-- and the firmware. `memcpy(addr, name, 8)` copies what lies behind the five bytes of `name` and the
-- four bytes of `vend`: `beyond` is that memory.
unfoldable pub info : ℕ → ℕ → ℕ → ℕ → HerdConfig → ℕ → ℕ
info mb_id user1 user2 beyond herd attribute =
    if attribute == 0
    then 0x43444341 + beyond % 2 ^ 24 * 2 ^ 40
    else if attribute == 1
    then 0x444d41 + beyond % 2 ^ 32 * 2 ^ 32
    else if attribute == 2
    then mb_id
    else if attribute == 3
    then user2 / 2 ^ 8
    else if attribute == 4
    then user1
    else if attribute == 5
    then u32 (herd.num_cols * herd.num_rows)
    else if attribute == 6
    then herd.num_rows
    else if attribute == 7
    then herd.num_cols
    else if attribute == 8
    then 32768
    else if attribute == 9
    then 16384
    else if attribute == 10
    then 262144 * herd.num_cols
    else 0

unfoldable pub handle_packet_get_info : ℕ → ℕ → ℕ → ℕ → ℕ → M (Unit {0})
unfolding activate info
handle_packet_get_info mb_id user1 user2 beyond pkt c =
    (activate pkt
        >> set_packet pkt (λ p. record p {
          return_address = info mb_id user1 user2 beyond c.herd (packet_at c pkt).arg0;
        }))
      c

-- `addr[i] = word` for the words of a list, from `i` on.
unfoldable pub store_words : ℕ → List ℕ → M (Unit {0})
store_words addr [] = pure tt
store_words addr (word ∷ words) = do out32 addr word; store_words (addr + 8) words

-- The capabilities: eight 64-bit words at the packet's return address.
unfoldable pub handle_packet_get_capabilities : ℕ → ℕ → ℕ → ℕ → M (Unit {0})
unfolding activate store_words
handle_packet_get_capabilities mb_id user1 user2 pkt c =
    (activate pkt
        >> store_words (packet_at c pkt).return_address
            (mb_id ∷ user1 ∷ user2 / 2 ^ 8 ∷ 16 ∷ 32768 ∷ 8 ∷ 16384 ∷ 0 ∷ []))
      c
