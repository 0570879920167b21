-- ===== src/Sd/Mshc/Events.antt =====
-- The translation between the controller's interrupt bits and the port driver's events and errors.
use woa_rk.Base.{ℕ, Bool, true, false, ◌||◌, ◌&&◌, not, [], ◌∷◌, if◌then◌else◌, flag, bit_or}
use woa_rk.Base.Flags.{mask, any_flag, or_if}
use woa_rk.Sd.Mshc.Types.{EventSet, ErrorSet, NtStatus}
use woa_rk.Sd.Mshc.Fields.{
  int_ebe, int_sbe, int_hle, int_frun, int_drto, int_rto, int_dcrc, int_rcrc, int_rxdr, int_txdr,
  int_dto, int_cmd, int_re, int_cd, idint_ais, idint_nis, idint_ces, idint_dui, idint_fbe, idint_ri,
  idint_ti, int_error,
}

abbrev pub no_events : EventSet
no_events = record {
  card_response = false;
  card_rw_end = false;
  buffer_empty = false;
  buffer_full = false;
  card_change = false;
  dma_complete = false;
  error = false;
}

abbrev pub no_errors : ErrorSet
no_errors = record {
  cmd_timeout = false;
  cmd_crc_error = false;
  cmd_end_bit_error = false;
  cmd_index_error = false;
  data_timeout = false;
  data_crc_error = false;
  data_end_bit_error = false;
  generic_io_error = false;
  bus_power_error = false;
  adma_error = false;
}

-- `Errors` of 0xFFFF.
abbrev pub all_errors : ErrorSet
all_errors = record {
  cmd_timeout = true;
  cmd_crc_error = true;
  cmd_end_bit_error = true;
  cmd_index_error = true;
  data_timeout = true;
  data_crc_error = true;
  data_end_bit_error = true;
  generic_io_error = true;
  bus_power_error = true;
  adma_error = true;
}

-- Whether a mask of events or of errors differs from 0.
unfoldable pub any_event : EventSet → Bool
any_event e =
    e.card_response
    || (e.card_rw_end
        || (e.buffer_empty || (e.buffer_full || (e.card_change || (e.dma_complete || e.error)))))

unfoldable pub any_error : ErrorSet → Bool
any_error e =
    e.cmd_timeout
    || (e.cmd_crc_error
        || (e.cmd_end_bit_error
            || (e.cmd_index_error
                || (e.data_timeout
                    || (e.data_crc_error
                        || (e.data_end_bit_error
                            || (e.generic_io_error || (e.bus_power_error || e.adma_error))))))))

-- `|` of two masks.
unfoldable pub events_or : EventSet → EventSet → EventSet
events_or a b = record {
  card_response = a.card_response || b.card_response;
  card_rw_end = a.card_rw_end || b.card_rw_end;
  buffer_empty = a.buffer_empty || b.buffer_empty;
  buffer_full = a.buffer_full || b.buffer_full;
  card_change = a.card_change || b.card_change;
  dma_complete = a.dma_complete || b.dma_complete;
  error = a.error || b.error;
}

unfoldable pub errors_or : ErrorSet → ErrorSet → ErrorSet
errors_or a b = record {
  cmd_timeout = a.cmd_timeout || b.cmd_timeout;
  cmd_crc_error = a.cmd_crc_error || b.cmd_crc_error;
  cmd_end_bit_error = a.cmd_end_bit_error || b.cmd_end_bit_error;
  cmd_index_error = a.cmd_index_error || b.cmd_index_error;
  data_timeout = a.data_timeout || b.data_timeout;
  data_crc_error = a.data_crc_error || b.data_crc_error;
  data_end_bit_error = a.data_end_bit_error || b.data_end_bit_error;
  generic_io_error = a.generic_io_error || b.generic_io_error;
  bus_power_error = a.bus_power_error || b.bus_power_error;
  adma_error = a.adma_error || b.adma_error;
}

-- `a & ~b`
unfoldable pub events_clear : EventSet → EventSet → EventSet
events_clear a b = record {
  card_response = a.card_response && not b.card_response;
  card_rw_end = a.card_rw_end && not b.card_rw_end;
  buffer_empty = a.buffer_empty && not b.buffer_empty;
  buffer_full = a.buffer_full && not b.buffer_full;
  card_change = a.card_change && not b.card_change;
  dma_complete = a.dma_complete && not b.dma_complete;
  error = a.error && not b.error;
}

-- The errors that `MshcConvertIntStatusToStandardEvents` finds.
unfoldable pub error_bits : (intsts idsts : ℕ) → ErrorSet
error_bits intsts idsts = record {
  cmd_timeout = flag intsts int_rto;
  cmd_crc_error = flag intsts int_rcrc;
  cmd_end_bit_error = flag intsts int_re;
  cmd_index_error = flag intsts int_re;
  data_timeout = flag intsts int_drto;
  data_crc_error = flag intsts int_dcrc;
  data_end_bit_error = flag intsts int_ebe;
  generic_io_error = any_flag intsts (int_sbe ∷ int_hle ∷ int_frun ∷ []);
  bus_power_error = false;
  adma_error = any_flag idsts (idint_ais ∷ idint_ces ∷ idint_dui ∷ idint_fbe ∷ []);
}

-- `MshcConvertIntStatusToStandardEvents`
unfoldable pub to_standard_events : (intsts idsts : ℕ) → EventSet × ErrorSet
to_standard_events intsts idsts =
    let failed = any_flag intsts int_error || flag idsts idint_ais in
    (
      record {
        card_response = flag intsts int_cmd;
        card_rw_end = flag intsts int_dto;
        buffer_empty = flag intsts int_txdr;
        buffer_full = flag intsts int_rxdr;
        card_change = flag intsts int_cd;
        dma_complete = any_flag idsts (idint_nis ∷ idint_ti ∷ idint_ri ∷ []);
        error = failed;
      },
      if failed then error_bits intsts idsts else no_errors,
    )

-- The bits of the errors in `MshcConvertStandardEventsToIntStatus`, all of them in `*Intsts`.
unfoldable pub with_errors : ErrorSet → ℕ → ℕ
with_errors e x = or_if e.adma_error (mask (idint_ais ∷ idint_ces ∷ idint_dui ∷ idint_fbe ∷ [])) (
    or_if e.generic_io_error (mask (int_sbe ∷ int_hle ∷ int_frun ∷ [])) (
      or_if e.data_end_bit_error (mask (int_ebe ∷ [])) (
        or_if e.data_crc_error (mask (int_dcrc ∷ [])) (
          or_if e.data_timeout (mask (int_drto ∷ [])) (
            or_if (e.cmd_end_bit_error || e.cmd_index_error) (mask (int_re ∷ [])) (
              or_if e.cmd_crc_error (mask (int_rcrc ∷ []))
                (or_if e.cmd_timeout (mask (int_rto ∷ [])) (bit_or x (mask int_error)))))))))

unfoldable pub with_events : EventSet → ℕ
with_events e = or_if e.card_change (mask (int_cd ∷ [])) (
    or_if e.buffer_full (mask (int_rxdr ∷ [])) (
      or_if e.buffer_empty (mask (int_txdr ∷ [])) (
        or_if e.card_rw_end (mask (int_dto ∷ [])) (or_if e.card_response (mask (int_cmd ∷ [])) 0))))

-- `MshcConvertStandardEventsToIntStatus`: `*Intsts` and `*Idsts`.
unfoldable pub to_int_status : EventSet → ErrorSet → ℕ × ℕ
to_int_status events errors = (
  if events.error then with_errors errors (with_events events) else with_events events,
  or_if events.dma_complete (mask (idint_nis ∷ idint_ti ∷ idint_ri ∷ [])) 0,
)

-- `MshcConvertStandardErrorToStatus`
unfoldable pub error_status : ErrorSet → NtStatus
error_status e =
    if not (any_error e)
    then NtStatus.success
    else if e.cmd_timeout || e.data_timeout
    then NtStatus.io_timeout
    else if e.cmd_crc_error || e.data_crc_error
    then NtStatus.crc_error
    else if e.cmd_end_bit_error || e.data_end_bit_error
    then NtStatus.device_data_error
    else if e.cmd_index_error
    then NtStatus.device_protocol_error
    else if e.bus_power_error
    then NtStatus.device_power_failure
    else NtStatus.io_device_error
