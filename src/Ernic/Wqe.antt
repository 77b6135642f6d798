-- ===== src/Ernic/Wqe.antt =====
-- Work queue entries: `write_wqe_to_sq` and `pcie_ernic_post_wqe` of
-- runtime_lib/airhost/pcie-ernic.cpp, for a device and a queue pair that are not null.
pub mod Posted
use mlir_air_mirror.Prelude.{
  ℕ, ◌+◌, ◌*◌, ◌/◌, ◌%◌, ◌^◌, Bool, true, if◌then◌else◌, ◌==◌, u32, Option, none, some, List, [],
  ◌∷◌,
}
use mlir_air_mirror.Queue.Signal.{History}
use mlir_air_mirror.Ernic.State.{Buff, Qp, M, ◌>>=◌, ◌>>◌, pure, store32}
use mlir_air_mirror.Ernic.Doorbell.{write_sq_pidb_db, write_db_axil, read_sq_cidb_db}

-- What the caller asks for; the send and the immediate data are never used.
pub record Request : Type 0 where
  pub wrid : ℕ
  pub laddr : ℕ
  pub length : ℕ
  pub op : ℕ
  pub offset : ℕ
  pub rtag : ℕ

-- The sixteen words of `pcie_ernic_wqe`.
abbrev pub wqe_words : Request → List ℕ
wqe_words r =
    r.wrid % 2 ^ 16
    ∷ u32 r.laddr
    ∷ r.laddr / 2 ^ 32
    ∷ r.length
    ∷ r.op % 2 ^ 8
    ∷ u32 r.offset
    ∷ r.offset / 2 ^ 32
    ∷ r.rtag
    ∷ 0
    ∷ 0
    ∷ 0
    ∷ 0
    ∷ 0
    ∷ 0
    ∷ 0
    ∷ 0
    ∷ []

-- Stores to consecutive words.
unfoldable pub store_entry : ℕ → List ℕ → M (Unit {0})
store_entry a [] = pure tt
store_entry a (w ∷ ws) = store32 a w >> store_entry (a + 4) ws

-- `&((struct pcie_ernic_wqe *)sq->buff)[index]`.
abbrev pub wqe_address : ℕ → ℕ → ℕ
wqe_address buff index = buff + 64 * index

-- What the function returns: 0 on a null pointer, else 1.
unfoldable pub write_wqe_to_sq : Option Buff → ℕ → Request → M ℕ
write_wqe_to_sq none index r = pure 0
write_wqe_to_sq (some sq) index r =
    if sq.buff == 0 then pure 0 else store_entry (wqe_address sq.buff index) (wqe_words r) >> pure 1

module _ (bar : History) where
  -- After the entry: the doorbell, and the completion when `poll` is set.
  unfoldable pub ring : ℕ → Qp → Bool → M Qp
  unfolding write_sq_pidb_db write_db_axil
  ring fuel qp poll = do
    rung ← write_sq_pidb_db qp (u32 (qp.sq_pidb + 1))
    if poll then read_sq_cidb_db bar fuel rung true else pure rung

  unfoldable pub pcie_ernic_post_wqe : ℕ → Qp → Request → Bool → M (ℕ × Qp)
  pcie_ernic_post_wqe fuel qp r poll = do
    ret_val ← write_wqe_to_sq qp.sq qp.sq_pidb r
    if ret_val == 0 then pure (0, qp) else do qp' ← ring fuel qp poll; pure (ret_val, qp')
