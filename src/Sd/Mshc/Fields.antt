-- ===== src/Sd/Mshc/Fields.antt =====
-- drivers/sd/dwcmshc/dwcmshc.h: the numbers of the bits of the registers.
use woa_rk.Base.{ℕ, List, [], ◌∷◌}

-- MSHC_INTMASK and MSHC_RINTSTS
abbrev pub int_ebe : ℕ
int_ebe = 15

abbrev pub int_sbe : ℕ
int_sbe = 13

abbrev pub int_hle : ℕ
int_hle = 12

abbrev pub int_frun : ℕ
int_frun = 11

abbrev pub int_hto : ℕ
int_hto = 10

abbrev pub int_drto : ℕ
int_drto = 9

abbrev pub int_rto : ℕ
int_rto = 8

abbrev pub int_dcrc : ℕ
int_dcrc = 7

abbrev pub int_rcrc : ℕ
int_rcrc = 6

abbrev pub int_rxdr : ℕ
int_rxdr = 5

abbrev pub int_txdr : ℕ
int_txdr = 4

abbrev pub int_dto : ℕ
int_dto = 3

abbrev pub int_cmd : ℕ
int_cmd = 2

abbrev pub int_re : ℕ
int_re = 1

abbrev pub int_cd : ℕ
int_cd = 0

-- MSHC_IDSTS and MSHC_IDINTEN
abbrev pub idint_ais : ℕ
idint_ais = 9

abbrev pub idint_nis : ℕ
idint_nis = 8

abbrev pub idint_ces : ℕ
idint_ces = 5

abbrev pub idint_dui : ℕ
idint_dui = 4

abbrev pub idint_fbe : ℕ
idint_fbe = 2

abbrev pub idint_ri : ℕ
idint_ri = 1

abbrev pub idint_ti : ℕ
idint_ti = 0

-- MSHC_CTRL
abbrev pub ctrl_use_internal_dmac : ℕ
ctrl_use_internal_dmac = 25

abbrev pub ctrl_int_enable : ℕ
ctrl_int_enable = 4

abbrev pub ctrl_dma_reset : ℕ
ctrl_dma_reset = 2

abbrev pub ctrl_fifo_reset : ℕ
ctrl_fifo_reset = 1

abbrev pub ctrl_controller_reset : ℕ
ctrl_controller_reset = 0

-- MSHC_CMD
abbrev pub cmd_start_cmd : ℕ
cmd_start_cmd = 31

abbrev pub cmd_use_hold_reg : ℕ
cmd_use_hold_reg = 29

abbrev pub cmd_volt_switch : ℕ
cmd_volt_switch = 28

abbrev pub cmd_update_clock_regs_only : ℕ
cmd_update_clock_regs_only = 21

abbrev pub cmd_send_initialization : ℕ
cmd_send_initialization = 15

abbrev pub cmd_stop_abort_cmd : ℕ
cmd_stop_abort_cmd = 14

abbrev pub cmd_wait_prvdata_complete : ℕ
cmd_wait_prvdata_complete = 13

abbrev pub cmd_send_auto_stop : ℕ
cmd_send_auto_stop = 12

abbrev pub cmd_wr : ℕ
cmd_wr = 10

abbrev pub cmd_data_expected : ℕ
cmd_data_expected = 9

abbrev pub cmd_check_response_crc : ℕ
cmd_check_response_crc = 8

abbrev pub cmd_response_length : ℕ
cmd_response_length = 7

abbrev pub cmd_response_expect : ℕ
cmd_response_expect = 6

-- MSHC_STATUS, MSHC_BMOD
abbrev pub status_data_busy : ℕ
status_data_busy = 9

abbrev pub bmod_de : ℕ
bmod_de = 7

abbrev pub bmod_fb : ℕ
bmod_fb = 1

abbrev pub bmod_swr : ℕ
bmod_swr = 0

-- The descriptors of the internal DMA controller
abbrev pub des0_own : ℕ
des0_own = 31

abbrev pub des0_er : ℕ
des0_er = 5

abbrev pub des0_fs : ℕ
des0_fs = 3

abbrev pub des0_ld : ℕ
des0_ld = 2

abbrev pub des0_dic : ℕ
des0_dic = 1

-- `MSHC_INT_ERROR`
abbrev pub int_error : List ℕ
int_error =
    int_ebe ∷ int_sbe ∷ int_frun ∷ int_hto ∷ int_drto ∷ int_dcrc ∷ int_hle ∷ int_rto ∷ int_rcrc
    ∷ int_re ∷ []

-- `MSHC_IDINT_ALL`
abbrev pub idint_all : List ℕ
idint_all = idint_ais ∷ idint_nis ∷ idint_ces ∷ idint_dui ∷ idint_fbe ∷ idint_ri ∷ idint_ti ∷ []

-- `MSHC_INT_ALL`
abbrev pub int_all : ℕ
int_all = 0xFFFFFFFF
