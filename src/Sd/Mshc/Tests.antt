-- ===== src/Sd/Mshc/Tests.antt =====
-- The SD host of Synopsys on concrete requests.
use woa_rk.Base.{
  ℕ, ◌+◌, ◌*◌, ◌/◌, ◌^◌, ◌≤◌, ◌≡◌, refl, true, false, List, [], ◌∷◌, ◌++◌, none, some, arith, ◌⊎◌,
  flag, ◌&&◌, ◌%◌,
}
use woa_rk.Sd.Mshc.Types.{
  Host, Request, Command, NtStatus, RequestType, ResponseType, TransferType, TransferMethod,
  TransferDirection, SgElement, BusWidth, BusSpeed, SignalingVoltage, EventSet,
}
use woa_rk.Sd.Mshc.Events.{
  no_events, no_errors, any_event, events_or, events_clear, any_error, to_standard_events,
  to_int_status,
}
use woa_rk.Sd.Mshc.Requests.{complete_request}
use woa_rk.Sd.Mshc.Idmac.{create_idmac_descriptor_table}
use woa_rk.Sd.Mshc.Table.{scattered, moved, moved-create_idmac_descriptor_table}
use woa_rk.Sd.Mshc.Chain.{Chained, create_idmac_descriptor_table-Chained}
use woa_rk.Sd.Mshc.Round.{spilled, to_standard_events-to_int_status}
use woa_rk.Sd.Mshc.Bus.{Platform, limited_frequency, divisor, platform_clock, set_clock}
use woa_rk.Sd.Mshc.Clock.{Ran, Limits, card_khz, set_clock-Ran, divisor_lem}
use woa_rk.Sd.Mshc.Arrival.{union, required, dpcs, dpcs_lem}
use woa_rk.Sd.Mshc.Pio.{asked}
use woa_rk.Sd.Mshc.Ends.{Ended, Deferred, must_wait, complete_request_lem}
use woa_rk.Sd.Mshc.Response.{
  word_bytes, number, behind, behind_word, slot_get_response, slot_get_response_lem,
}

-- A read of 32 bytes by words, of which the command has been sent.
abbrev read_command : Command
read_command = record {
  index = 17;
  argument = 0;
  response_type = ResponseType.resp_r1;
  transfer_type = TransferType.single_block;
  transfer_method = TransferMethod.method_pio;
  transfer_direction = TransferDirection.direction_read;
  use_auto_cmd12 = false;
  block_count = 1;
  block_size = 32;
  length = 32;
  data_buffer = 0x1000;
  dma_address = 0;
  sg_list = [];
}

abbrev both_ends : EventSet
both_ends = record no_events { card_response = true; card_rw_end = true }

abbrev read_request : Request
read_request = record {
  kind = RequestType.command_with_transfer;
  command = read_command;
  required_events = both_ends;
  status = NtStatus.pending;
}

-- A host in the slot 0 with this request, 4 words at a time.
abbrev host : Host
host = record {
  slot_id = 0;
  crashdump = false;
  broken_cd = false;
  fifo_depth = 256;
  max_frequency = 200000000;
  base_clock_khz = 200000;
  scatter_gather_dma = true;
  regs = λ a. 0;
  reads = 0;
  requests = λ a. read_request;
  outstanding = some 7;
  current_events = no_events;
  current_errors = no_errors;
  local_request_pending = false;
  local_dpc_queued = false;
  busy_work_item = true;
  busy_work_queued = false;
  fifo_threshold = 4;
  fifo_dma_burst_size = 0;
  remaining_length = 32;
  memory = λ a. 0;
  port_written = [];
  descriptors = [];
  card_rca = 0;
  card_initialized = true;
  card_power_control = true;
  bus_frequency_khz = 0;
  bus_width = BusWidth.width_4;
  bus_speed = BusSpeed.high;
  signaling_voltage = SignalingVoltage.signaling_33;
  tuning_performed = false;
  data_crc_errors = 0;
  completed = [];
}

-- A controller that is never busy and gives the numbers of the reads.
abbrev counting : ℕ → ℕ → ℕ
counting n a = n

abbrev plain : Platform
plain = record {
  set_clock = none;
  set_voltage = none;
  set_signaling_voltage = none;
  execute_tuning = none;
}

-- Two elements, the first of them longer than an entry.
abbrev two_elements : List SgElement
two_elements =
    record { address = 0x10000; length = 6000 } ∷ record { address = 0x80000; length = 512 } ∷ []

moved_example : moved (create_idmac_descriptor_table two_elements) ≡ scattered two_elements
moved_example = moved-create_idmac_descriptor_table two_elements (omega arith, (omega arith, tt))

Chained_example : Chained true (create_idmac_descriptor_table two_elements)
Chained_example = create_idmac_descriptor_table-Chained two_elements

round_trip_example :
    (to_standard_events
      (to_int_status both_ends no_errors).0
      (to_int_status both_ends no_errors).1).0
    ≡ events_or both_ends (spilled false)
round_trip_example = to_standard_events-to_int_status both_ends no_errors

limit_example : limited_frequency 50000 host ≡ 50000
unfolding limited_frequency
limit_example = refl

set_clock-Ran_example :
    (taken : ℕ) × Limits host.max_frequency 50000 taken
    × Ran counting plain taken host (set_clock counting plain 50000 host)
unfolding platform_clock
set_clock-Ran_example =
    set_clock-Ran counting plain 50000 host (λ khz h. (refl, refl, refl)) (omega arith) refl
      (omega arith)

divisor_lem_example : (card_khz 200000 (divisor 200000 400) ≤ 400) × (divisor 200000 400 ≤ 250)
divisor_lem_example = divisor_lem 200000 400 250 (omega arith) (omega arith) (omega arith)

abbrev response_came : EventSet
response_came = record no_events { card_response = true }

abbrev data_ended : EventSet
data_ended = record no_events { card_rw_end = true }

dpcs_lem_example :
    ((g : Host) × (dpcs counting 2 true 7 (response_came ∷ []) host ≡ some g)
      × (asked counting g ≡ asked counting host)
      × (required 7 g ≡ events_clear both_ends (union (response_came ∷ []))))
    × (g : Host) × (dpcs counting 2 true 7 ((response_came ∷ []) ++ data_ended ∷ []) host ≡ some g)
    × (Ended 7 host g ⊎ ((flag 0 9 ≡ true) × Deferred host g))
unfolding any_event any_error events_clear events_or
dpcs_lem_example =
    dpcs_lem counting 1 true 7 data_ended (response_came ∷ []) host 7 (refl, tt) refl refl refl refl
      refl refl

-- What every register answers.
abbrev answer : ℕ
answer = 36

-- A buffer of 16 bytes.
abbrev buffer : List ℕ
buffer = word_bytes 1 ++ (word_bytes 2 ++ (word_bytes 3 ++ word_bytes 0x5A000000))

slot_get_response_example :
    ((slot_get_response (λ i a. 4096 + a % 256) ResponseType.resp_r2 2 buffer host).0.reads ≡ 0 + 4)
    × (number (slot_get_response (λ i a. 4096 + a % 256) ResponseType.resp_r2 2 buffer host).1
        ≡ (4096 + 0x30 + 2 ^ 32 * (4096 + 0x34 + 2 ^ 32 * (4096 + 0x38 + 2 ^ 32 * (4096 + 0x3C))))
            / 256
          + 2 ^ 120
            * number (behind (behind (behind (behind_word (behind_word (behind_word buffer)))))))
slot_get_response_example =
    slot_get_response_lem (λ i a. 4096 + a % 256) 2 buffer host (λ i a. omega arith)

complete_request_lem_example :
    (g : Host) × (complete_request counting 1 true 7 NtStatus.success host ≡ some g)
    × (((must_wait NtStatus.success read_request && flag 0 9) ≡ true × Deferred host g)
        ⊎ ((must_wait NtStatus.success read_request && flag 0 9) ≡ false × Ended 7 host g))
complete_request_lem_example = complete_request_lem counting 0 true 7 NtStatus.success host refl
