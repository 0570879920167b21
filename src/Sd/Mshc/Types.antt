-- ===== src/Sd/Mshc/Types.antt =====
-- drivers/sd/dwcmshc/dwcmshc.h: the slot extension, its requests and the registers.
use woa_rk.Base.{ℕ, Bool, true, false, List, Option, update}

-- The values of `NTSTATUS` that the driver returns.
pub data NtStatus : Type 0 where
  success pending more_processing_required io_timeout crc_error device_data_error : NtStatus
  device_protocol_error device_power_failure io_device_error invalid_parameter : NtStatus
  not_supported not_implemented device_configuration_error unsuccessful : NtStatus

-- `NT_SUCCESS`
abbrev pub nt_success : NtStatus → Bool
nt_success success = true
nt_success pending = true
nt_success _ = false

-- A mask of `SDPORT_EVENT_…`, one field per bit that the driver names.
pub record EventSet : Type 0 where
  pub card_response : Bool
  pub card_rw_end : Bool
  pub buffer_empty : Bool
  pub buffer_full : Bool
  pub card_change : Bool
  pub dma_complete : Bool
  pub error : Bool

-- A mask of `SDPORT_ERROR_…`, one field per bit that the driver names.
pub record ErrorSet : Type 0 where
  pub cmd_timeout : Bool
  pub cmd_crc_error : Bool
  pub cmd_end_bit_error : Bool
  pub cmd_index_error : Bool
  pub data_timeout : Bool
  pub data_crc_error : Bool
  pub data_end_bit_error : Bool
  pub generic_io_error : Bool
  pub bus_power_error : Bool
  pub adma_error : Bool

pub data ResponseType : Type 0 where
  resp_none resp_r1 resp_r2 resp_r3 resp_r4 resp_r5 resp_r6 resp_r1b resp_r5b : ResponseType
  resp_undefined : ResponseType

pub data TransferType : Type 0 where
  no_transfer undefined_transfer single_block multi_block : TransferType

pub data TransferMethod : Type 0 where
  method_undefined method_pio method_sg_dma : TransferMethod

pub data TransferDirection : Type 0 where
  direction_undefined direction_read direction_write : TransferDirection

pub data RequestType : Type 0 where
  command_no_transfer command_with_transfer start_transfer other_request : RequestType

-- One element of a scatter-gather list.
pub record SgElement : Type 0 where
  pub address : ℕ
  pub length : ℕ

-- `SDPORT_COMMAND`
pub record Command : Type 0 where
  pub index : ℕ
  pub argument : ℕ
  pub response_type : ResponseType
  pub transfer_type : TransferType
  pub transfer_method : TransferMethod
  pub transfer_direction : TransferDirection
  pub use_auto_cmd12 : Bool
  pub block_count : ℕ
  pub block_size : ℕ
  pub length : ℕ
  pub data_buffer : ℕ
  pub dma_address : ℕ
  pub sg_list : List SgElement

-- `SDPORT_REQUEST`
pub record Request : Type 0 where
  pub kind : RequestType
  pub command : Command
  pub required_events : EventSet
  pub status : NtStatus

pub data BusWidth : Type 0 where
  width_1 width_4 width_8 width_other : BusWidth

pub data BusSpeed : Type 0 where
  normal high sdr12 sdr25 sdr50 sdr104 ddr50 hs200 hs400 speed_other : BusSpeed

pub data BusVoltage : Type 0 where
  voltage_33 voltage_off voltage_other : BusVoltage

pub data SignalingVoltage : Type 0 where
  signaling_33 signaling_18 signaling_other : SignalingVoltage

-- One descriptor of the internal DMA controller.
pub record IdmacDescriptor : Type 0 where
  pub des0 : ℕ
  pub des1 : ℕ
  pub des2 : ℕ
  pub des3 : ℕ

-- The members of the slot extension that change while requests are handled, the registers, the
-- requests by their addresses, and what was handed to the port driver. `reads` counts the reads
-- of registers that the controller changes by itself; `memory` has a word for each address, and
-- `port_written` are the words that were written to the data port.
pub record Host : Type 0 where
  pub slot_id : ℕ
  pub crashdump : Bool
  pub broken_cd : Bool
  pub fifo_depth : ℕ
  pub max_frequency : ℕ
  pub base_clock_khz : ℕ
  pub scatter_gather_dma : Bool
  pub regs : ℕ → ℕ
  pub reads : ℕ
  pub requests : ℕ → Request
  pub outstanding : Option ℕ
  pub current_events : EventSet
  pub current_errors : ErrorSet
  pub local_request_pending : Bool
  pub local_dpc_queued : Bool
  pub busy_work_item : Bool
  pub busy_work_queued : Bool
  pub fifo_threshold : ℕ
  pub fifo_dma_burst_size : ℕ
  pub remaining_length : ℕ
  pub memory : ℕ → ℕ
  pub port_written : List ℕ
  pub descriptors : List IdmacDescriptor
  pub card_rca : ℕ
  pub card_initialized : Bool
  pub card_power_control : Bool
  pub bus_frequency_khz : ℕ
  pub bus_width : BusWidth
  pub bus_speed : BusSpeed
  pub signaling_voltage : SignalingVoltage
  pub tuning_performed : Bool
  pub data_crc_errors : ℕ
  pub completed : List (ℕ × NtStatus)

-- The registers' addresses.
abbrev pub mshc_ctrl : ℕ
mshc_ctrl = 0

abbrev pub mshc_pwren : ℕ
mshc_pwren = 0x04

abbrev pub mshc_clkdiv : ℕ
mshc_clkdiv = 0x08

abbrev pub mshc_clksrc : ℕ
mshc_clksrc = 0x0C

abbrev pub mshc_clkena : ℕ
mshc_clkena = 0x10

abbrev pub mshc_tmout : ℕ
mshc_tmout = 0x14

abbrev pub mshc_ctype : ℕ
mshc_ctype = 0x18

abbrev pub mshc_blksiz : ℕ
mshc_blksiz = 0x1C

abbrev pub mshc_bytcnt : ℕ
mshc_bytcnt = 0x20

abbrev pub mshc_intmask : ℕ
mshc_intmask = 0x24

abbrev pub mshc_cmdarg : ℕ
mshc_cmdarg = 0x28

abbrev pub mshc_cmd : ℕ
mshc_cmd = 0x2C

abbrev pub mshc_rintsts : ℕ
mshc_rintsts = 0x44

abbrev pub mshc_status : ℕ
mshc_status = 0x48

abbrev pub mshc_fifoth : ℕ
mshc_fifoth = 0x4C

abbrev pub mshc_cdetect : ℕ
mshc_cdetect = 0x50

abbrev pub mshc_wrtprt : ℕ
mshc_wrtprt = 0x54

abbrev pub mshc_uhs_reg : ℕ
mshc_uhs_reg = 0x74

abbrev pub mshc_bmod : ℕ
mshc_bmod = 0x80

abbrev pub mshc_resp0 : ℕ
mshc_resp0 = 0x30

abbrev pub mshc_fifo_base : ℕ
mshc_fifo_base = 0x200

abbrev pub mshc_dbaddr : ℕ
mshc_dbaddr = 0x88

abbrev pub mshc_idsts : ℕ
mshc_idsts = 0x8C

abbrev pub mshc_idinten : ℕ
mshc_idinten = 0x90

-- A request is stored at its address.
abbrev pub set_request : ℕ → Request → Host → Host
set_request id r h = record h { requests = update h.requests id r }
