-- ===== src/Sd/Sdhc/Fields.antt =====
-- drivers/sd/dwcsdhc/dwcsdhc.h: the numbers of the bits of the registers.
use woa_rk.Base.{ℕ, List, [], ◌∷◌}

-- SDHC_CLOCK_CONTROL
abbrev pub cc_internal_clock_enable : ℕ
cc_internal_clock_enable = 0

abbrev pub cc_clock_stable : ℕ
cc_clock_stable = 1

abbrev pub cc_clock_enable : ℕ
cc_clock_enable = 2

-- SDHC_POWER_CONTROL
abbrev pub pc_bus_power : ℕ
pc_bus_power = 0

-- SDHC_HOST_CONTROL
abbrev pub hc_led_power : ℕ
hc_led_power = 0

abbrev pub hc_data_width_4bit : ℕ
hc_data_width_4bit = 1

abbrev pub hc_enable_high_speed : ℕ
hc_enable_high_speed = 2

abbrev pub hc_data_width_8bit : ℕ
hc_data_width_8bit = 5

-- SDHC_HOST_CONTROL2
abbrev pub hc2_18v_signaling : ℕ
hc2_18v_signaling = 3

abbrev pub hc2_execute_tuning : ℕ
hc2_execute_tuning = 6

abbrev pub hc2_enable_preset_value : ℕ
hc2_enable_preset_value = 15

-- SDHC_BLOCKGAP_CONTROL
abbrev pub bgc_interrupt_enable : ℕ
bgc_interrupt_enable = 3

-- SDHC_PRESENT_STATE
abbrev pub ps_card_inserted : ℕ
ps_card_inserted = 16

-- DWCMSHC_EMMC_MISC_CON and DWCMSHC_EMMC_CONTROL
abbrev pub misc_intclk_en : ℕ
misc_intclk_en = 1

abbrev pub card_is_emmc : ℕ
card_is_emmc = 0

-- SDHC_TRANSFER_MODE
abbrev pub tm_dma_enable : ℕ
tm_dma_enable = 0

abbrev pub tm_blkcnt_enable : ℕ
tm_blkcnt_enable = 1

abbrev pub tm_auto_cmd12_enable : ℕ
tm_auto_cmd12_enable = 2

abbrev pub tm_auto_cmd23_enable : ℕ
tm_auto_cmd23_enable = 3

abbrev pub tm_transfer_read : ℕ
tm_transfer_read = 4

abbrev pub tm_multiblock : ℕ
tm_multiblock = 5

-- SDHC_COMMAND
abbrev pub cmd_crc_check_enable : ℕ
cmd_crc_check_enable = 3

abbrev pub cmd_index_check_enable : ℕ
cmd_index_check_enable = 4

abbrev pub cmd_data_present : ℕ
cmd_data_present = 5

-- SDHC_INTERRUPT_STATUS
abbrev pub is_cmd_complete : ℕ
is_cmd_complete = 0

abbrev pub is_transfer_complete : ℕ
is_transfer_complete = 1

abbrev pub is_buffer_write_ready : ℕ
is_buffer_write_ready = 4

abbrev pub is_buffer_read_ready : ℕ
is_buffer_read_ready = 5

abbrev pub is_card_insertion : ℕ
is_card_insertion = 6

abbrev pub is_card_removal : ℕ
is_card_removal = 7

abbrev pub is_card_interrupt : ℕ
is_card_interrupt = 8

abbrev pub is_tuning_interrupt : ℕ
is_tuning_interrupt = 12

abbrev pub is_error_interrupt : ℕ
is_error_interrupt = 15

-- SDHC_ERROR_STATUS
abbrev pub es_cmd_timeout : ℕ
es_cmd_timeout = 0

abbrev pub es_cmd_crc_error : ℕ
es_cmd_crc_error = 1

abbrev pub es_cmd_end_bit_error : ℕ
es_cmd_end_bit_error = 2

abbrev pub es_cmd_index_error : ℕ
es_cmd_index_error = 3

abbrev pub es_data_timeout : ℕ
es_data_timeout = 4

abbrev pub es_data_crc_error : ℕ
es_data_crc_error = 5

abbrev pub es_data_end_bit_error : ℕ
es_data_end_bit_error = 6

abbrev pub es_bus_power_error : ℕ
es_bus_power_error = 7

-- `SDHC_PS_DAT_3_0`
abbrev pub ps_dat_3_0 : List ℕ
ps_dat_3_0 = 20 ∷ 21 ∷ 22 ∷ 23 ∷ []

-- `SDHC_HC2_UHS_MODES`
abbrev pub hc2_uhs_modes : ℕ
hc2_uhs_modes = 0x0007

-- `SDHC_HC_DMA_SELECT_MASK`
abbrev pub hc_dma_select_mask : ℕ
hc_dma_select_mask = 0x18
