-- ===== src/Ernic/Registers.antt =====
-- Where the registers of the card are (runtime_lib/airhost/include/pcie-ernic.h): the macros that
-- index `axil_bar`, and the offsets.
pub mod Window
use mlir_air_mirror.Prelude.{ℕ, ◌+◌, ◌*◌, ◌/◌, ◌-◌, ◌^◌, u32}

-- `ERNIC_QP_ADDR(qpid, addr)`, on uint32_t.
unfoldable pub ernic_qp_addr : ℕ → ℕ → ℕ
ernic_qp_addr qpid addr = u32 (addr + 0x100 * u32 (qpid + (2 ^ 32 - 1))) / 4

-- `ERNIC_PD_ADDR(pd, addr)`.
unfoldable pub ernic_pd_addr : ℕ → ℕ → ℕ
ernic_pd_addr pd addr = u32 (addr + 0x100 * pd) / 4

-- A register outside of the tables: `(addr) >> 2`.
unfoldable pub csr_addr : ℕ → ℕ
csr_addr addr = u32 addr / 4

abbrev pub bdf_low_addr : ℕ
bdf_low_addr = 0x82420

abbrev pub bdf_high_addr : ℕ
bdf_high_addr = 0x82424

abbrev pub bdf_pasid : ℕ
bdf_pasid = 0x82428

abbrev pub bdf_func_num : ℕ
bdf_func_num = 0x8242c

abbrev pub bdf_misc : ℕ
bdf_misc = 0x82430

abbrev pub bdf_reserved : ℕ
bdf_reserved = 0x82434

abbrev pub usp_bdf_misc_write_data : ℕ
usp_bdf_misc_write_data = 0xc4000000

abbrev pub versal_bdf_misc_write_data : ℕ
versal_bdf_misc_write_data = 0xc1000000

abbrev pub num_qps : ℕ
num_qps = 16

abbrev pub retry_buff_base : ℕ
retry_buff_base = 0

abbrev pub retry_buff_size : ℕ
retry_buff_size = 0x10000010

abbrev pub xrnicconf : ℕ
xrnicconf = 0x20000

abbrev pub xrnicadconf : ℕ
xrnicadconf = 0x20004

abbrev pub macxaddlsb : ℕ
macxaddlsb = 0x20010

abbrev pub macxaddmsb : ℕ
macxaddmsb = 0x20014

abbrev pub ipv4xadd : ℕ
ipv4xadd = 0x20070

abbrev pub errbufba : ℕ
errbufba = 0x20060

abbrev pub errbufbamsb : ℕ
errbufbamsb = 0x20064

abbrev pub errbufsz : ℕ
errbufsz = 0x20068

abbrev pub ipkterrqba : ℕ
ipkterrqba = 0x20088

abbrev pub ipkterrqbamsb : ℕ
ipkterrqbamsb = 0x2008c

abbrev pub ipkterrqsz : ℕ
ipkterrqsz = 0x20090

abbrev pub datbufba : ℕ
datbufba = 0x200a0

abbrev pub databufsz : ℕ
databufsz = 0x200a8

abbrev pub inten : ℕ
inten = 0x20180

abbrev pub resperrpktba : ℕ
resperrpktba = 0x200b0

abbrev pub resperrpktbamsb : ℕ
resperrpktbamsb = 0x200b4

abbrev pub resperrsz : ℕ
resperrsz = 0x200b8

abbrev pub statcursqptri : ℕ
statcursqptri = 0x2028c

abbrev pub statmsn : ℕ
statmsn = 0x20284

abbrev pub pdpdnum : ℕ
pdpdnum = 0

abbrev pub virtaddrlsb : ℕ
virtaddrlsb = 0x4

abbrev pub virtaddrmsb : ℕ
virtaddrmsb = 0x8

abbrev pub bufbaseaddrlsb : ℕ
bufbaseaddrlsb = 0xc

abbrev pub bufbaseaddrmsb : ℕ
bufbaseaddrmsb = 0x10

abbrev pub bufrkey : ℕ
bufrkey = 0x14

abbrev pub wrrdbuflen : ℕ
wrrdbuflen = 0x18

abbrev pub accessdesc : ℕ
accessdesc = 0x1c

abbrev pub qpconfi : ℕ
qpconfi = 0x20200

abbrev pub qpadvconfi : ℕ
qpadvconfi = 0x20204

abbrev pub rqbai : ℕ
rqbai = 0x20208

abbrev pub rqbamsbi : ℕ
rqbamsbi = 0x202c0

abbrev pub sqbai : ℕ
sqbai = 0x20210

abbrev pub sqbamsbi : ℕ
sqbamsbi = 0x202c8

abbrev pub cqbai : ℕ
cqbai = 0x20218

abbrev pub cqbamsbi : ℕ
cqbamsbi = 0x202d0

abbrev pub rqwptrdbaddi : ℕ
rqwptrdbaddi = 0x20220

abbrev pub rqwptrdbaddmsbi : ℕ
rqwptrdbaddmsbi = 0x20224

abbrev pub cqdbaddi : ℕ
cqdbaddi = 0x20228

abbrev pub cqdbaddmsbi : ℕ
cqdbaddmsbi = 0x2022c

abbrev pub cqheadi : ℕ
cqheadi = 0x20230

abbrev pub rqcii : ℕ
rqcii = 0x20234

abbrev pub sqpii : ℕ
sqpii = 0x20238

abbrev pub qdepthi : ℕ
qdepthi = 0x2023c

abbrev pub sqpsni : ℕ
sqpsni = 0x20240

abbrev pub lstrqreqi : ℕ
lstrqreqi = 0x20244

abbrev pub destqpconfi : ℕ
destqpconfi = 0x20248

abbrev pub macdesaddlsbi : ℕ
macdesaddlsbi = 0x20250

abbrev pub macdesaddmsbi : ℕ
macdesaddmsbi = 0x20254

abbrev pub ipdesaddr1i : ℕ
ipdesaddr1i = 0x20260

abbrev pub statmsni : ℕ
statmsni = 0x20284

abbrev pub statqpi : ℕ
statqpi = 0x20288

abbrev pub statrqpidbi : ℕ
statrqpidbi = 0x2029c

abbrev pub pdi : ℕ
pdi = 0x202b0

abbrev pub op_send : ℕ
op_send = 2

abbrev pub rqe_size : ℕ
rqe_size = 256

abbrev pub mrmac_rx_align_timeout : ℕ
mrmac_rx_align_timeout = 20

abbrev pub reset_reg_0_offset : ℕ
reset_reg_0_offset = 0x4

abbrev pub mode_reg_0_offset : ℕ
mode_reg_0_offset = 0x8

abbrev pub configuration_tx_reg1_0_offset : ℕ
configuration_tx_reg1_0_offset = 0xc

abbrev pub configuration_rx_reg1_0_offset : ℕ
configuration_rx_reg1_0_offset = 0x10

abbrev pub tick_reg_0_offset : ℕ
tick_reg_0_offset = 0x2c

abbrev pub fec_configuration_reg1_0_offset : ℕ
fec_configuration_reg1_0_offset = 0xd0

abbrev pub stat_rx_status_reg1_0_offset : ℕ
stat_rx_status_reg1_0_offset = 0x744

abbrev pub fec_configuration_reg1_1_offset : ℕ
fec_configuration_reg1_1_offset = 0x10d0

abbrev pub fec_configuration_reg1_2_offset : ℕ
fec_configuration_reg1_2_offset = 0x20d0

abbrev pub fec_configuration_reg1_3_offset : ℕ
fec_configuration_reg1_3_offset = 0x30d0

abbrev pub configuration_revision_reg_offset : ℕ
configuration_revision_reg_offset = 0
