-- ===== src/Sd/Sdhc/Requests.antt =====
-- The end of a request, and the deferred handler that takes the events to it.
use woa_rk.Base.{
  ℕ, Bool, true, false, not, [], ◌∷◌, ◌++◌, none, some, if◌then◌else◌, bit_or, u16, flag, ◌==◌,
}
use woa_rk.Base.Flags.{any_flag, clear}
use woa_rk.Sd.Mshc.Types.{NtStatus, TransferType, no_transfer, undefined_transfer}
use woa_rk.Sd.Sdhc.Types.{SdhcExtension, SdhcCommand, put_request}
use woa_rk.Sd.Sdhc.Fields.{
  es_cmd_timeout, es_cmd_crc_error, es_cmd_end_bit_error, es_cmd_index_error, es_data_timeout,
  es_data_crc_error, es_data_end_bit_error, es_bus_power_error,
}

-- `SdhcConvertErrorToStatus`
unfoldable pub convert_error_to_status : (error : ℕ) → NtStatus
convert_error_to_status error =
    if error == 0
    then NtStatus.success
    else if any_flag error (es_cmd_timeout ∷ es_data_timeout ∷ [])
    then NtStatus.io_timeout
    else if any_flag error (es_cmd_crc_error ∷ es_data_crc_error ∷ [])
    then NtStatus.crc_error
    else if any_flag error (es_cmd_end_bit_error ∷ es_data_end_bit_error ∷ [])
    then NtStatus.device_data_error
    else if flag error es_cmd_index_error
    then NtStatus.device_protocol_error
    else if flag error es_bus_power_error
    then NtStatus.device_power_failure
    else NtStatus.io_device_error

-- Whether the command moves data.
unfoldable pub has_transfer : TransferType → Bool
has_transfer no_transfer = false
has_transfer undefined_transfer = false
has_transfer _ = true

-- `IsCommandCompleted`
unfoldable pub is_command_completed : SdhcCommand → Bool
is_command_completed c = if has_transfer c.transfer_type then c.block_count == 0 else true

-- `SdhcCompleteRequest`
unfoldable pub complete_request : (id : ℕ) → NtStatus → SdhcExtension → SdhcExtension
complete_request id status h = record h {
  outstanding = if is_command_completed (h.requests id).command then none else h.outstanding;
  completed = h.completed ++ (id, status) ∷ [];
}

-- The status of a request of which all events came.
unfoldable pub status_ended : NtStatus → NtStatus
status_ended NtStatus.more_processing_required = NtStatus.more_processing_required
status_ended _ = NtStatus.success

-- `SdhcRequestDpc` behind the stores of the events.
unfoldable pub end_request : (id errors : ℕ) → SdhcExtension → SdhcExtension
end_request id errors h =
    let r = h.requests id in
    if not (errors == 0)
    then (let g = put_request id (record r { required_events = 0 }) h in
        complete_request id (convert_error_to_status (u16 errors))
          (record g { current_events = 0 }))
    else if r.required_events == 0
    then (let status = status_ended r.status in
        complete_request id status (put_request id (record r { status = status }) h))
    else h

-- The events are no longer required of the request.
unfoldable pub clear_required : (id events : ℕ) → SdhcExtension → SdhcExtension
clear_required id events h =
    let r = h.requests id in
    put_request id (record r { required_events = clear r.required_events events }) h

-- `SdhcRequestDpc`
unfoldable pub request_dpc : (id events errors : ℕ) → SdhcExtension → SdhcExtension
request_dpc id events errors h =
    let g = record h { current_events = bit_or h.current_events events } in
    elim (g.outstanding) [
      | none ↦ g
      | some other ↦ end_request id errors (clear_required id events g)
    ]
