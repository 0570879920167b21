-- ===== src/Sd/Sdhc/Tests.antt =====
-- The SD host of the eMMC on concrete requests.
use woa_rk.Base.{
  ℕ, ◌*◌, ◌/◌, ◌≤◌, ◌≡◌, ◌≢◌, refl, true, false, List, [], ◌∷◌, ◌++◌, some, arith, if◌then◌else◌,
  flag, field,
}
use woa_rk.Base.Flags.{clear}
use woa_rk.Sd.Mshc.Types.{
  NtStatus, RequestType, ResponseType, TransferType, TransferMethod, TransferDirection, SgElement,
}
use woa_rk.Sd.Mshc.Table.{scattered}
use woa_rk.Sd.Sdhc.Types.{SdhcExtension, SdhcRequest, SdhcCommand, CommandType}
use woa_rk.Sd.Sdhc.Fields.{
  cmd_crc_check_enable, cmd_index_check_enable, cmd_data_present, is_transfer_complete,
}
use woa_rk.Sd.Sdhc.Clock.{parent_rate, cru_word, set_clock}
use woa_rk.Sd.Sdhc.Operations.{BusOperation, slot_issue_bus_operation}
use woa_rk.Sd.Sdhc.Interrupt.{slot_interrupt}
use woa_rk.Sd.Sdhc.Adma.{create_adma_descriptor_table}
use woa_rk.Sd.Sdhc.Port.{read_data_port}
use woa_rk.Sd.Sdhc.Commands.{response_bits, names_transfer, command_reg, start_pio_transfer}
use woa_rk.Sd.Sdhc.Outcome.{Ends, set_clock-Ends}
use woa_rk.Sd.Sdhc.Divider.{programmed_hz, cru_word_lem}
use woa_rk.Sd.Sdhc.Gated.{Gated, nothing_stored}
use woa_rk.Sd.Sdhc.Steps.{no_step, then_step, bus_step, interrupt_step, Steps-Gated}
use woa_rk.Sd.Sdhc.Table.{transferred, transferred-create_adma_descriptor_table}
use woa_rk.Sd.Sdhc.Copied.{Copied, read_data_port-Copied}
use woa_rk.Sd.Sdhc.Blocks.{Advanced, moved, start_pio_transfer-Advanced}
use woa_rk.Sd.Sdhc.Arrivals.{dpc_run, dpc_run_lem}
use woa_rk.Sd.Sdhc.Word.{length_code, has_crc, has_index, type_code, command_reg_lem}

-- A read of two blocks of 8 bytes by words, of which the command has been sent.
abbrev pio_command : SdhcCommand
pio_command = record {
  index = 18;
  argument = 0;
  type = CommandType.type_normal;
  response_type = ResponseType.resp_r1;
  transfer_type = TransferType.multi_block;
  transfer_method = TransferMethod.method_pio;
  transfer_direction = TransferDirection.direction_read;
  block_count = 2;
  block_size = 8;
  data_buffer = 0x1000;
  dma_low = 0;
  dma_high = 0;
  sg_list = [];
}

abbrev pio_request : SdhcRequest
pio_request = record {
  kind = RequestType.command_with_transfer;
  command = pio_command;
  required_events = 0x21;
  status = NtStatus.pending;
}

abbrev slot : SdhcExtension
slot = record {
  crashdump = false;
  scatter_gather_dma = true;
  address_64bit = false;
  base_clock_khz = 200000;
  cru_mapped = true;
  writes = [];
  reads = 3;
  requests = λ a. pio_request;
  outstanding = some 7;
  current_events = 0;
  memory = λ a. 0;
  table = [];
  completed = [];
}

-- A controller that answers each read with its number.
abbrev numbers : List (ℕ × ℕ) → ℕ → ℕ → ℕ
numbers writes n a = n

set_clock-Ends_example : Ends numbers 400 slot (set_clock numbers 400 slot)
set_clock-Ends_example = set_clock-Ends numbers 400 slot

cru_word_lem_example :
    (programmed_hz (cru_word 400000) ≤ 400000)
    × ((d : ℕ)
        → d ≤ 64
        → parent_rate 400000 ≤ d * 400000
        → parent_rate 400000 / d ≤ programmed_hz (cru_word 400000))
cru_word_lem_example = cru_word_lem 400000 (omega arith) (omega arith)

abbrev clocked : SdhcExtension
clocked = (slot_issue_bus_operation numbers (BusOperation.op_set_clock 400) slot).0

Steps-Gated_example : Gated (slot_interrupt numbers clocked).0.writes
Steps-Gated_example =
    Steps-Gated numbers slot (slot_interrupt numbers clocked).0
      (then_step (then_step (no_step slot) (bus_step (BusOperation.op_set_clock 400) slot))
        (interrupt_step clocked))
      nothing_stored

-- Two elements, the first of them longer than an entry.
abbrev long_element : SgElement
long_element = record { address = 0x10000; length = 70000 }

abbrev short_element : SgElement
short_element = record { address = 0x80000; length = 512 }

transferred_example :
    transferred (create_adma_descriptor_table true (long_element ∷ short_element ∷ []))
    ≡ some (scattered (long_element ∷ short_element ∷ []))
transferred_example =
    transferred-create_adma_descriptor_table true long_element (short_element ∷ []) (omega arith)
      (omega arith, (omega arith, tt))

read_data_port-Copied_example : Copied numbers 0x1000 2 slot (read_data_port numbers 0x1000 8 slot)
read_data_port-Copied_example = read_data_port-Copied numbers 0x1000 2 slot

start_pio_transfer-Advanced_example :
    Copied numbers 0x1000 2 (record slot { current_events = 0 }) (moved numbers 7 slot)
    × ((start_pio_transfer numbers 7 slot).0.memory ≡ (moved numbers 7 slot).memory)
    × Advanced 7 1 8
        (flag 0 is_transfer_complete)
        pio_request
        slot
        (start_pio_transfer numbers 7 slot).0
start_pio_transfer-Advanced_example =
    start_pio_transfer-Advanced numbers 7 1 2 slot refl refl refl (omega arith)

dpc_run_lem_example :
    ((dpc_run 7 (0x01 ∷ []) slot).completed ≡ [])
    × ((dpc_run 7 ((0x01 ∷ []) ++ 0x20 ∷ []) slot).completed ≡ [] ++ (7, NtStatus.success) ∷ [])
unfolding clear
dpc_run_lem_example = dpc_run_lem 7 0x20 7 (0x01 ∷ []) slot refl refl refl

no_abort : CommandType.type_normal ≢ CommandType.type_abort
no_abort e = absurd (ground (arith, e))

command_reg_lem_example :
    (field (command_reg 0x1A pio_command) 8 6 ≡ 18)
    × (field (command_reg 0x1A pio_command) 0 2 ≡ length_code ResponseType.resp_r1)
    × (flag (command_reg 0x1A pio_command) cmd_crc_check_enable ≡ has_crc ResponseType.resp_r1)
    × (flag (command_reg 0x1A pio_command) cmd_index_check_enable ≡ has_index ResponseType.resp_r1)
    × (field (command_reg 0x1A pio_command) cmd_data_present 1
        ≡ (if names_transfer TransferType.multi_block then 1 else 0))
    × (field (command_reg 0x1A pio_command) 6 2 ≡ type_code CommandType.type_normal)
unfolding response_bits
command_reg_lem_example = command_reg_lem pio_command 0x1A (omega arith) no_abort refl
