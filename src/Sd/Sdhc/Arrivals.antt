-- ===== src/Sd/Sdhc/Arrivals.antt =====
-- The deferred handler over the events of one request as they come.
use woa_rk.Base.{
  ℕ, ◌-◌, true, false, List, [], ◌∷◌, ◌++◌, Bool, if◌then◌else◌, Option, none, some, ◌≡◌, refl, ap,
  ◌∙◌, inl, inr, Bool-cases, arith, ◌==◌, ==_iff, bit_or,
}
use woa_rk.Base.Flags.{clear}
use woa_rk.Base.Bits.{zero-bit_and}
use woa_rk.Sd.Mshc.Types.{NtStatus}
use woa_rk.Sd.Sdhc.Types.{SdhcExtension, SdhcRequest, put_request}
use woa_rk.Sd.Sdhc.Requests.{
  complete_request, status_ended, end_request, clear_required, request_dpc,
}

-- The deferred handler is called with one mask of events after the other, none of them an error.
abbrev pub dpc_run : (id : ℕ) → List ℕ → SdhcExtension → SdhcExtension
dpc_run id [] h = h
dpc_run id (e ∷ es) h = dpc_run id es (request_dpc id e 0 h)

-- What is still required after these events.
abbrev pub left_over : (required : ℕ) → List ℕ → ℕ
left_over required [] = required
left_over required (e ∷ es) = left_over (clear required e) es

request_dpc-some :
    (id events errors other : ℕ) (h : SdhcExtension)
    → h.outstanding ≡ some other
    → request_dpc id events errors h
      ≡ end_request id errors
          (clear_required id events (record h { current_events = bit_or h.current_events events }))
unfolding request_dpc
request_dpc-some id events errors other h e =
    let g : SdhcExtension = record h { current_events = bit_or h.current_events events } in
    let after : Option ℕ → SdhcExtension =
      λ o. elim o [ none ↦ g | some other ↦ end_request id errors (clear_required id events g) ] in
    ap after e

-- The state after events that leave something required.
abbrev waiting : (id events : ℕ) → SdhcExtension → SdhcExtension
waiting id events h =
    put_request id
      (record (h.requests id) { required_events = clear (h.requests id).required_events events })
      (record h { current_events = bit_or h.current_events events })

request_dpc-waits :
    (id events other : ℕ) (h : SdhcExtension)
    → h.outstanding ≡ some other
    → (clear (h.requests id).required_events events == 0) ≡ false
    → request_dpc id events 0 h ≡ waiting id events h
unfolding clear_required end_request
request_dpc-waits id events other h e more =
    let same : (id == id) ≡ true = (==_iff id id).1 refl in
    request_dpc-some id events 0 other h e ∙ rw (end_request, same, more) refl

request_dpc-ends :
    (id events other : ℕ) (h : SdhcExtension)
    → h.outstanding ≡ some other
    → (clear (h.requests id).required_events events == 0) ≡ true
    → (request_dpc id events 0 h).completed
      ≡ h.completed ++ (id, status_ended (h.requests id).status) ∷ []
unfolding clear_required end_request complete_request
request_dpc-ends id events other h e over =
    let same : (id == id) ≡ true = (==_iff id id).1 refl in
    ap (λ (x : SdhcExtension). x.completed) (request_dpc-some id events 0 other h e)
    ∙ rw (end_request, same, over) refl

-- Nothing comes back once nothing is required.
left_over-zero : (es : List ℕ) → left_over 0 es ≡ 0
unfolding clear
left_over-zero [] = refl
left_over-zero (e ∷ es) =
    ap (λ x. left_over x es) (zero-bit_and (4294967295 - e)) ∙ left_over-zero es

still_required :
    (required e : ℕ) (es : List ℕ)
    → (left_over (clear required e) es == 0) ≡ false
    → (clear required e == 0) ≡ false
still_required required e es more = elim (Bool-cases (clear required e == 0)) [
  | inl f ↦
      let nothing : clear required e ≡ 0 = (==_iff (clear required e) 0).0 f in
      let gone : left_over (clear required e) es ≡ 0 =
        ap (λ x. left_over x es) nothing ∙ left_over-zero es in
      absurd (ground (arith, more, gone))
  | inr f ↦ f
]

-- The request has asked for more processing.
abbrev pub wishes_more : NtStatus → Bool
wishes_more NtStatus.more_processing_required = true
wishes_more _ = false

status_ended_lem :
    (s : NtStatus)
    → status_ended s
      ≡ (if wishes_more s then NtStatus.more_processing_required else NtStatus.success)
unfolding status_ended
status_ended_lem NtStatus.success = refl
status_ended_lem NtStatus.pending = refl
status_ended_lem NtStatus.more_processing_required = refl
status_ended_lem NtStatus.io_timeout = refl
status_ended_lem NtStatus.crc_error = refl
status_ended_lem NtStatus.device_data_error = refl
status_ended_lem NtStatus.device_protocol_error = refl
status_ended_lem NtStatus.device_power_failure = refl
status_ended_lem NtStatus.io_device_error = refl
status_ended_lem NtStatus.invalid_parameter = refl
status_ended_lem NtStatus.not_supported = refl
status_ended_lem NtStatus.not_implemented = refl
status_ended_lem NtStatus.device_configuration_error = refl
status_ended_lem NtStatus.unsuccessful = refl

-- A request that is outstanding does not complete as long as one of its required events has not
-- come, however they arrive; with the first mask of events that brings the rest it completes, once:
-- with the status that asks for more processing if that is its status, and else with success.
pub dpc_run_lem :
    (id last other : ℕ) (es : List ℕ) (h : SdhcExtension)
    → h.outstanding ≡ some other
    → (left_over (h.requests id).required_events es == 0) ≡ false
    → (left_over (h.requests id).required_events (es ++ last ∷ []) == 0) ≡ true
    → ((dpc_run id es h).completed ≡ h.completed)
      × ((dpc_run id (es ++ last ∷ []) h).completed
          ≡ h.completed
            ++ (
              id,
              if wishes_more (h.requests id).status
                  then NtStatus.more_processing_required
                  else NtStatus.success,
            )
              ∷ [])
dpc_run_lem id last other [] h e more over = (
  refl,
  request_dpc-ends id last other h e over
      ∙ ap (λ s. h.completed ++ (id, s) ∷ []) (status_ended_lem (h.requests id).status),
)
dpc_run_lem id last other (x ∷ xs) h e more over =
    let same : (id == id) ≡ true = (==_iff id id).1 refl in
    let r = h.requests id in
    let g = waiting id x h in
    let step = request_dpc-waits id x other h e (still_required r.required_events x xs more) in
    let there : g.requests id ≡ record r { required_events = clear r.required_events x } =
      rw same refl in
    let (quiet, done) =
      dpc_run_lem id last other xs g e
        (ap (λ (q : SdhcRequest). left_over q.required_events xs == 0) there ∙ more)
        (ap (λ (q : SdhcRequest). left_over q.required_events (xs ++ last ∷ []) == 0) there
          ∙ over) in
    (
      ap (λ (k : SdhcExtension). (dpc_run id xs k).completed) step ∙ quiet,
      ap (λ (k : SdhcExtension). (dpc_run id (xs ++ last ∷ []) k).completed) step
          ∙ done
          ∙ ap
              (λ (q : SdhcRequest).
                h.completed
                ++ (
                  id,
                  if wishes_more q.status
                      then NtStatus.more_processing_required
                      else NtStatus.success,
                )
                  ∷ [])
              there,
    )
