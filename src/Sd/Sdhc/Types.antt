-- ===== src/Sd/Sdhc/Types.antt =====
-- drivers/sd/dwcsdhc/dwcsdhc.h: the slot extension, its requests, the addresses of the registers.
-- The types of the port driver that both SD hosts use are those of `Sd.Mshc.Types`.
use woa_rk.Base.{ℕ, Bool, List, Option, update}
use woa_rk.Sd.Mshc.Types.{
  NtStatus, ResponseType, TransferType, TransferMethod, TransferDirection, RequestType, SgElement,
}

pub data CommandType : Type 0 where
  type_normal type_suspend type_resume type_abort : CommandType

pub data ResetType : Type 0 where
  reset_all reset_cmd reset_dat reset_other : ResetType

pub data Voltage : Type 0 where
  volt_33 volt_30 volt_18 volt_off volt_other : Voltage

-- `SDPORT_COMMAND`, the members that this driver uses.
pub record SdhcCommand : Type 0 where
  pub index : ℕ
  pub argument : ℕ
  pub type : CommandType
  pub response_type : ResponseType
  pub transfer_type : TransferType
  pub transfer_method : TransferMethod
  pub transfer_direction : TransferDirection
  pub block_count : ℕ
  pub block_size : ℕ
  pub data_buffer : ℕ
  pub dma_low : ℕ
  pub dma_high : ℕ
  pub sg_list : List SgElement

-- `SDPORT_REQUEST`
pub record SdhcRequest : Type 0 where
  pub kind : RequestType
  pub command : SdhcCommand
  pub required_events : ℕ
  pub status : NtStatus

-- One entry of the ADMA2 descriptor table: the word of attribute, action and length, and the
-- address of 4 or 8 bytes behind it.
pub record AdmaDescriptor : Type 0 where
  pub word : ℕ
  pub address : ℕ

-- `SDHC_EXTENSION`, with the requests by their addresses. `writes` are the stores to registers
-- (address and value), the last one first; `reads` counts the reads. `cru_mapped` says whether
-- the clock register of the SoC is mapped (`s_CruClkSel`). `memory` has a byte for each address,
-- and `table` is the descriptor table that was made last.
pub record SdhcExtension : Type 0 where
  pub crashdump : Bool
  pub scatter_gather_dma : Bool
  pub address_64bit : Bool
  pub base_clock_khz : ℕ
  pub cru_mapped : Bool
  pub writes : List (ℕ × ℕ)
  pub reads : ℕ
  pub requests : ℕ → SdhcRequest
  pub outstanding : Option ℕ
  pub current_events : ℕ
  pub memory : ℕ → ℕ
  pub table : List AdmaDescriptor
  pub completed : List (ℕ × NtStatus)

-- The registers' addresses.
abbrev pub sdhc_sysaddr : ℕ
sdhc_sysaddr = 0x00

abbrev pub sdhc_block_size : ℕ
sdhc_block_size = 0x04

abbrev pub sdhc_block_count : ℕ
sdhc_block_count = 0x06

abbrev pub sdhc_argument : ℕ
sdhc_argument = 0x08

abbrev pub sdhc_transfer_mode : ℕ
sdhc_transfer_mode = 0x0C

abbrev pub sdhc_command : ℕ
sdhc_command = 0x0E

abbrev pub sdhc_response : ℕ
sdhc_response = 0x10

abbrev pub sdhc_data_port : ℕ
sdhc_data_port = 0x20

abbrev pub sdhc_present_state : ℕ
sdhc_present_state = 0x24

abbrev pub sdhc_host_control : ℕ
sdhc_host_control = 0x28

abbrev pub sdhc_power_control : ℕ
sdhc_power_control = 0x29

abbrev pub sdhc_blockgap_control : ℕ
sdhc_blockgap_control = 0x2A

abbrev pub sdhc_clock_control : ℕ
sdhc_clock_control = 0x2C

abbrev pub sdhc_timeout_control : ℕ
sdhc_timeout_control = 0x2E

abbrev pub sdhc_reset : ℕ
sdhc_reset = 0x2F

abbrev pub sdhc_interrupt_status : ℕ
sdhc_interrupt_status = 0x30

abbrev pub sdhc_error_status : ℕ
sdhc_error_status = 0x32

abbrev pub sdhc_interrupt_status_enable : ℕ
sdhc_interrupt_status_enable = 0x34

abbrev pub sdhc_error_status_enable : ℕ
sdhc_error_status_enable = 0x36

abbrev pub sdhc_interrupt_signal_enable : ℕ
sdhc_interrupt_signal_enable = 0x38

abbrev pub sdhc_error_signal_enable : ℕ
sdhc_error_signal_enable = 0x3A

abbrev pub sdhc_auto_cmd12_error_status : ℕ
sdhc_auto_cmd12_error_status = 0x3C

abbrev pub sdhc_host_control2 : ℕ
sdhc_host_control2 = 0x3E

abbrev pub sdhc_adma_sysaddr_low : ℕ
sdhc_adma_sysaddr_low = 0x58

abbrev pub sdhc_adma_sysaddr_high : ℕ
sdhc_adma_sysaddr_high = 0x5C

abbrev pub sdhc_version : ℕ
sdhc_version = 0xFE

abbrev pub dwcmshc_emmc_control : ℕ
dwcmshc_emmc_control = 0x52C

abbrev pub dwcmshc_emmc_dll_ctrl : ℕ
dwcmshc_emmc_dll_ctrl = 0x800

abbrev pub dwcmshc_emmc_dll_rxclk : ℕ
dwcmshc_emmc_dll_rxclk = 0x804

abbrev pub dwcmshc_emmc_dll_txclk : ℕ
dwcmshc_emmc_dll_txclk = 0x808

abbrev pub dwcmshc_emmc_dll_strbin : ℕ
dwcmshc_emmc_dll_strbin = 0x80C

abbrev pub dwcmshc_emmc_dll_cmdout : ℕ
dwcmshc_emmc_dll_cmdout = 0x810

abbrev pub dwcmshc_emmc_misc_con : ℕ
dwcmshc_emmc_misc_con = 0x81C

-- The clock register of the SoC, which is mapped by itself.
abbrev pub rk3576_cru_clksel_con89 : ℕ
rk3576_cru_clksel_con89 = 0x27200464

-- A request is stored at its address.
abbrev pub put_request : ℕ → SdhcRequest → SdhcExtension → SdhcExtension
put_request id r h = record h { requests = update h.requests id r }
