-- ===== src/Sd/Mshc/Requests.antt =====
-- The end of a request: `MshcCompleteRequest`, its worker, and the DPCs that lead to it.
use woa_rk.Base.{
  ℕ, zero, suc, ◌+◌, Bool, true, false, not, ◌&&◌, ◌||◌, ◌∷◌, if◌then◌else◌, Option, none, some,
  u32,
}
use woa_rk.Sd.Mshc.Types.{
  Host, NtStatus, Request, ResponseType, TransferDirection, EventSet, ErrorSet, set_request,
}
use woa_rk.Sd.Mshc.Events.{
  no_events, no_errors, any_event, any_error, events_or, errors_or, events_clear, error_status,
}
use woa_rk.Sd.Mshc.Registers.{is_data_busy, wait_data_idle, is_card_inserted}

abbrev pub is_success : NtStatus → Bool
is_success NtStatus.success = true
is_success _ = false

abbrev pub is_more_processing : NtStatus → Bool
is_more_processing NtStatus.more_processing_required = true
is_more_processing _ = false

abbrev pub is_write : TransferDirection → Bool
is_write TransferDirection.direction_write = true
is_write _ = false

abbrev pub signals_busy : ResponseType → Bool
signals_busy ResponseType.resp_r1b = true
signals_busy ResponseType.resp_r5b = true
signals_busy _ = false

-- The condition under which `MshcCompleteRequest` looks at the busy signal.
unfoldable pub may_be_busy : NtStatus → Request → Bool
may_be_busy status r =
    is_success status
    && (not (any_event r.required_events)
        && (signals_busy r.command.response_type || is_write r.command.transfer_direction))

-- The request is handed to the port driver, if the driver did not issue it itself.
unfoldable pub hand_over : (id : ℕ) → Host → Host
hand_over id h =
    if h.local_request_pending
    then record h { local_request_pending = false }
    else record h { completed = (id, (h.requests id).status) ∷ h.completed }

-- Whether a timeout still waits for the end of the command or of the data.
unfoldable pub waits_for_end : ErrorSet → EventSet → Bool
waits_for_end errors events =
    (errors.cmd_timeout && not events.card_response)
    || (errors.data_timeout && not events.card_rw_end)

-- The events and errors are saved.
unfoldable pub save_events : EventSet → ErrorSet → Host → Host
save_events events errors h = record h {
  current_events = events_or h.current_events events;
  current_errors = errors_or h.current_errors errors;
}

-- The request no longer waits for the events that came.
unfoldable pub clear_required : (id : ℕ) → EventSet → Host → Host
clear_required id events h =
    set_request id
      (record (h.requests id) {
        required_events = events_clear (h.requests id).required_events events;
      })
      h

module _ (device : ℕ → ℕ → ℕ) where
  -- `MshcCompleteRequest` behind the busy signal.
  unfoldable pub release_request : (id : ℕ) → Host → Host
  unfolding hand_over
  release_request id h =
      let status = (h.requests id).status in
      let a =
        if is_success status || is_more_processing status
        then record h { outstanding = none }
        else h in
      let b = is_card_inserted device a in
      let c =
        if b.1
        then b.0
        else set_request id (record (h.requests id) { status = NtStatus.io_device_error }) b.0 in
      hand_over id c

  -- `MshcCompleteRequest`, at `DISPATCH_LEVEL` or not. When it waits itself, as
  -- `MshcCompleteRequestBusyWorker` does, it is called again for the outstanding request, `fuel`
  -- times at most; `none` is for the fuel that is used up and for a missing outstanding request.
  unfoldable pub complete_request :
      (fuel : ℕ) (dispatch : Bool) (id : ℕ) → NtStatus → Host → Option Host
  unfolding release_request
  complete_request zero dispatch id status h = none
  complete_request (suc fuel) dispatch id status h =
      let r = record (h.requests id) { status = status } in
      let a = set_request id r h in
      let b = is_data_busy device a in
      let c = wait_data_idle device b.0 in
      elim (may_be_busy status r) [
        | false ↦ some (release_request id a)
        | true ↦ elim (b.1) [
          | false ↦ some (release_request id b.0)
          | true ↦ elim (h.busy_work_item && dispatch) [
            | true ↦ some (record (b.0) { busy_work_queued = true })
            | false ↦ elim (h.outstanding) [
              | none ↦ none
              | some next ↦ complete_request fuel dispatch next c.1 c.0
            ]
          ]
        ]
      ]

  -- `MshcCompleteRequestBusyWorker`, from the work item.
  unfoldable pub complete_request_busy_worker : (fuel : ℕ) → Host → Option Host
  unfolding complete_request
  complete_request_busy_worker fuel h =
      let c = wait_data_idle device (record h { busy_work_queued = false }) in
      elim (h.outstanding) [ none ↦ none | some id ↦ complete_request fuel false id c.1 c.0 ]

  -- The request fails with the errors that were saved.
  unfoldable pub fail_request : (fuel : ℕ) (dispatch : Bool) (id : ℕ) → Host → Option Host
  unfolding complete_request
  fail_request fuel dispatch id h =
      let crc =
        if h.tuning_performed && h.current_errors.data_crc_error
        then u32 (h.data_crc_errors + 1)
        else h.data_crc_errors in
      let r = record (h.requests id) { required_events = no_events } in
      complete_request fuel dispatch id (error_status h.current_errors) (
        set_request id r (record h {
          data_crc_errors = crc;
          current_events = no_events;
          current_errors = no_errors;
        }))

  -- The request ends well, unless it has more to transfer.
  unfoldable pub end_request : (fuel : ℕ) (dispatch : Bool) (id : ℕ) → Host → Option Host
  unfolding complete_request
  end_request fuel dispatch id h =
      let status = (h.requests id).status in
      complete_request fuel dispatch id
        (if is_more_processing status then status else NtStatus.success) h

  -- What `MshcRequestDpc` decides, once the events are noted.
  unfoldable pub judge_request :
      (fuel : ℕ) (dispatch : Bool) (id : ℕ) → EventSet → Host → Option Host
  judge_request fuel dispatch id events h =
      if any_error h.current_errors
      then if waits_for_end h.current_errors events then some h else fail_request fuel dispatch id h
      else if not (any_event (h.requests id).required_events)
      then end_request fuel dispatch id h
      else some h

  -- `MshcRequestDpc`
  unfoldable pub request_dpc :
      (fuel : ℕ) (dispatch : Bool) (id : ℕ) → EventSet → ErrorSet → Host → Option Host
  request_dpc fuel dispatch id events errors h =
      let saved = save_events events errors h in
      if not (any_event events) && not (any_error errors)
        || not (any_event (h.requests id).required_events)
      then some h
      else elim (h.outstanding) [
        | none ↦ some saved
        | some other ↦ judge_request fuel dispatch id events (clear_required id events saved)
      ]

  -- `MshcLocalRequestDpc`
  unfoldable pub local_request_dpc : (fuel : ℕ) → Host → Option Host
  unfolding request_dpc
  local_request_dpc fuel h =
      let g = record h { local_dpc_queued = false } in
      elim (h.outstanding) [
        | none ↦ some g
        | some id ↦ request_dpc fuel true id h.current_events h.current_errors g
      ]
