-- ===== src/AirToAie/BdProgram.antt =====
-- The descriptors of a tile's DMA: the blocks that `lowerAirDmaMemcpy` of
-- mlir/lib/Conversion/AIRToAIEPass.cpp generates for the copies of each channel. A block is known by
-- its index in the body of the AIE.mem operation.
pub mod Ring
pub mod Chain
pub mod Channels
use mlir_air_mirror.Prelude.{
  ℕ, ◌+◌, ◌*◌, Bool, true, false, if◌then◌else◌, ltb, Option, none, some, List, [], ◌∷◌, ◌++◌,
  length, get_elem?, set,
}

-- The two directions of a DMA channel.
pub data Direction : Type 0 where
  s2mm mm2s : Direction

-- `AIE::DMAChannel`.
pub record DmaChannel : Type 0 where
  pub direction : Direction
  pub number : ℕ

-- What the code reads of a copy: its buffer and its lock on this tile, the length if it has one, else
-- the memory spaces and the sizes, where none is a size that is not constant.
pub record DmaCopy : Type 0 where
  pub buffer : ℕ
  pub lock : ℕ
  pub length_operand : Option ℕ
  pub src_memory_space : ℕ
  pub dst_memory_space : ℕ
  pub src_sizes : List (Option ℕ)
  pub dst_sizes : List (Option ℕ)

-- The two values of a lock around a descriptor: acquired with the one, released with the other.
abbrev pub bd_lock_values : Direction → ℕ × ℕ
bd_lock_values s2mm = (0, 1)
bd_lock_values mm2s = (1, 0)

-- The same around the core's use of the buffer.
abbrev pub core_lock_values : Direction → ℕ × ℕ
core_lock_values s2mm = (1, 0)
core_lock_values mm2s = (0, 1)

-- The loop over the sizes; none is -1.
abbrev pub size_product : List (Option ℕ) → ℕ → Option ℕ
size_product [] size = some size
size_product (none ∷ sizes) size = none
size_product (some c ∷ sizes) size = size_product sizes (size * c)

-- `length`.
abbrev pub copy_length : DmaCopy → Option ℕ → Option ℕ
copy_length c (some n) = some n
copy_length c none =
    size_product (if ltb c.dst_memory_space c.src_memory_space then c.dst_sizes else c.src_sizes) 1

-- The block of a descriptor; the length -1 is none.
pub record Bd : Type 0 where
  pub acquire : ℕ
  pub release : ℕ
  pub copy : DmaCopy
  pub length : Option ℕ
  pub next_bd : ℕ

pub data MemBlock : Type 0 where
  -- AIE::DMAStartOp with its first descriptor and the next block of the chain
  start_bb : DmaChannel → ℕ → ℕ → MemBlock
  bd : Bd → MemBlock
  end_bb : MemBlock

abbrev pub bd_block : Direction → ℕ → DmaCopy → MemBlock
bd_block d next c = bd (record {
  acquire = (bd_lock_values d).0;
  release = (bd_lock_values d).1;
  copy = c;
  length = copy_length c c.length_operand;
  next_bd = next;
})

-- The blocks of the copies, where `here` is the index of the first of them. The last one goes back to
-- `first_bd`, each other one on to the block that was just pushed.
unfoldable pub bd_blocks : Direction → ℕ → ℕ → List DmaCopy → List MemBlock
bd_blocks d first_bd here [] = []
bd_blocks d first_bd here (c ∷ []) = bd_block d first_bd c ∷ []
bd_blocks d first_bd here (c ∷ c' ∷ cs) =
    bd_block d (here + 1) c ∷ bd_blocks d first_bd (here + 1) (c' ∷ cs)

-- The body so far, and `channel_head`.
pub record Program : Type 0 where
  pub body : List MemBlock
  pub channel_head : Option ℕ

-- `getSuccessor(1)` and `setSuccessor(b, 1)` on the terminator of a block.
abbrev pub successor : Option MemBlock → ℕ
successor (some (start_bb ch f chain)) = chain
successor (some (bd b)) = 0
successor (some end_bb) = 0
successor none = 0

abbrev pub with_successor : Option MemBlock → ℕ → MemBlock
with_successor (some (start_bb ch f chain)) b = start_bb ch f b
with_successor (some (bd x)) b = bd x
with_successor (some end_bb) b = end_bb
with_successor none b = end_bb

-- The blocks of one channel behind `body`, with the next block of its chain.
abbrev pub channel_blocks : List MemBlock → DmaChannel → List DmaCopy → ℕ → List MemBlock
channel_blocks body ch copies chain =
    let first_bd = length body + 1 in
    start_bb ch first_bd chain ∷ bd_blocks ch.direction first_bd first_bd copies

-- One round of the loop over the channels. The first channel is followed by the end block; each later
-- one comes into the chain behind the first.
abbrev pub add_channel : Program → DmaChannel → List DmaCopy → Option ℕ → Program
add_channel p ch copies none =
    let last = length p.body + 1 + length copies in
    record {
      body = p.body ++ (channel_blocks p.body ch copies last ++ (end_bb ∷ []));
      channel_head = some (length p.body);
    }
add_channel p ch copies (some head) =
    let start = length p.body in
    let chain = successor (get_elem? p.body head) in
    record {
      body =
          set p.body head (with_successor (get_elem? p.body head) start)
          ++ channel_blocks p.body ch copies chain;
      channel_head = some head;
    }

unfoldable pub add_channels : Program → List (DmaChannel × List DmaCopy) → Program
add_channels p [] = p
add_channels p ((ch, copies) ∷ rest) = add_channels (add_channel p ch copies p.channel_head) rest

-- The program of a tile, from `tile_dma_copies` in the order of its keys.
unfoldable pub bd_program : List (DmaChannel × List DmaCopy) → Program
unfolding add_channels
bd_program copies = add_channels (record { body = []; channel_head = none }) copies
