-- ===== src/Ernic/Tests/Network.antt =====
-- Two hosts and a network that copies the pages of the one to the entries of the other.
use mlir_air_mirror.Prelude.{ℕ, ◌+◌, ◌-◌, ltb, if◌then◌else◌, Option, none, some, List}
use mlir_air_mirror.Queue.Signal.{History}
use mlir_air_mirror.Host.DevMem.{Allocator}
use mlir_air_mirror.Ernic.State.{
  Buff, pd_read_write, other_access, Mr, Pd, Qp, Card, Run, ok, fault, out_of_fuel, Write, reg, mem,
}
use mlir_air_mirror.Ernic.Log.{fetch}
use mlir_air_mirror.Ernic.Doorbell.{pcie_ernic_post_recv}
use mlir_air_mirror.Ernic.Wqe.{Request, wqe_address}
use mlir_air_mirror.Ernic.Advertise.{Received, pcie_ernic_reg_adv}
use mlir_air_mirror.Ernic.Tests.{sample_card, data_page, sample_qp, always}

abbrev adv_run : Run Qp
adv_run =
    pcie_ernic_reg_adv (always 7) 0 0 (some data_page) sample_qp 5 4096 pd_read_write sample_card

abbrev qp_after : Run Qp → Qp
qp_after (ok q d) = q
qp_after fault = sample_qp
qp_after out_of_fuel = sample_qp

abbrev card_after : Run Qp → Card
card_after (ok q d) = d
card_after fault = sample_card
card_after out_of_fuel = sample_card

-- A network that copies the two pages to the first two entries.
abbrev word_of : Option ℕ → ℕ
word_of none = 0
word_of (some w) = w

abbrev network : List Write → ℕ → ℕ → ℕ → History
network log v0 v1 rqe t x =
    if ltb x (rqe + 256)
    then word_of (fetch log (v0 + (x - rqe)))
    else word_of (fetch log (v1 + (x - (rqe + 256))))

abbrev adv_log : List Write
adv_log = (card_after adv_run).log
