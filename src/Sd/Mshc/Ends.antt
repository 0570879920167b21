-- ===== src/Sd/Mshc/Ends.antt =====
-- The end of a request in a DPC, `MshcCompleteRequest`.
use woa_rk.Base.{
  ℕ, suc, Bool, true, false, ◌&&◌, ◌||◌, List, ◌∷◌, none, some, ◌≡◌, refl, sym, ap, ◌∙◌, ◌⊎◌, inl,
  inr, Bool-cases, not, flag, arith, if◌then◌else◌,
}
use woa_rk.Sd.Mshc.Types.{
  Host, Request, NtStatus, ResponseType, TransferDirection, mshc_status, set_request,
}
use woa_rk.Sd.Mshc.Events.{any_event}
use woa_rk.Sd.Mshc.Registers.{is_data_busy, is_card_inserted, read_register}
use woa_rk.Sd.Mshc.Requests.{
  is_success, is_more_processing, signals_busy, is_write, may_be_busy, hand_over, release_request,
  complete_request,
}

-- The port driver was told of the request, and of no other, or the driver's own request is no
-- longer pending.
abbrev pub Ended : (id : ℕ) (h g : Host) → Type 0
Ended id h g =
    ((h.local_request_pending ≡ false) × (g.completed ≡ (id, (g.requests id).status) ∷ h.completed))
    ⊎ ((h.local_request_pending ≡ true)
        × (g.local_request_pending ≡ false)
        × (g.completed ≡ h.completed))

-- The request waits for the work item: the port driver was told nothing.
abbrev pub Deferred : (h g : Host) → Type 0
Deferred h g =
    (g.busy_work_queued ≡ true)
    × (g.completed ≡ h.completed)
    × (g.outstanding ≡ h.outstanding)
    × (g.local_request_pending ≡ h.local_request_pending)

-- The responses behind which the card may hold the data line, and the directions.
abbrev pub holds_line : ResponseType → TransferDirection → Bool
holds_line ResponseType.resp_r1b _ = true
holds_line ResponseType.resp_r5b _ = true
holds_line _ TransferDirection.direction_write = true
holds_line _ _ = false

abbrev pub succeeded : NtStatus → Bool
succeeded NtStatus.success = true
succeeded _ = false

-- The end of the request must wait for the line.
abbrev pub must_wait : NtStatus → Request → Bool
must_wait status r =
    succeeded status
    && (not (any_event r.required_events)
        && holds_line r.command.response_type r.command.transfer_direction)

holds_line_lem :
    (t : ResponseType) (d : TransferDirection) → (signals_busy t || is_write d) ≡ holds_line t d
holds_line_lem ResponseType.resp_r1b d = refl
holds_line_lem ResponseType.resp_r5b d = refl
holds_line_lem ResponseType.resp_none TransferDirection.direction_undefined = refl
holds_line_lem ResponseType.resp_none TransferDirection.direction_read = refl
holds_line_lem ResponseType.resp_none TransferDirection.direction_write = refl
holds_line_lem ResponseType.resp_r1 TransferDirection.direction_undefined = refl
holds_line_lem ResponseType.resp_r1 TransferDirection.direction_read = refl
holds_line_lem ResponseType.resp_r1 TransferDirection.direction_write = refl
holds_line_lem ResponseType.resp_r2 TransferDirection.direction_undefined = refl
holds_line_lem ResponseType.resp_r2 TransferDirection.direction_read = refl
holds_line_lem ResponseType.resp_r2 TransferDirection.direction_write = refl
holds_line_lem ResponseType.resp_r3 TransferDirection.direction_undefined = refl
holds_line_lem ResponseType.resp_r3 TransferDirection.direction_read = refl
holds_line_lem ResponseType.resp_r3 TransferDirection.direction_write = refl
holds_line_lem ResponseType.resp_r4 TransferDirection.direction_undefined = refl
holds_line_lem ResponseType.resp_r4 TransferDirection.direction_read = refl
holds_line_lem ResponseType.resp_r4 TransferDirection.direction_write = refl
holds_line_lem ResponseType.resp_r5 TransferDirection.direction_undefined = refl
holds_line_lem ResponseType.resp_r5 TransferDirection.direction_read = refl
holds_line_lem ResponseType.resp_r5 TransferDirection.direction_write = refl
holds_line_lem ResponseType.resp_r6 TransferDirection.direction_undefined = refl
holds_line_lem ResponseType.resp_r6 TransferDirection.direction_read = refl
holds_line_lem ResponseType.resp_r6 TransferDirection.direction_write = refl
holds_line_lem ResponseType.resp_undefined TransferDirection.direction_undefined = refl
holds_line_lem ResponseType.resp_undefined TransferDirection.direction_read = refl
holds_line_lem ResponseType.resp_undefined TransferDirection.direction_write = refl

may_be_busy_lem : (s : NtStatus) (r : Request) → may_be_busy s r ≡ must_wait s r
unfolding may_be_busy
may_be_busy_lem s r =
    let same = holds_line_lem r.command.response_type r.command.transfer_direction in
    rw same (
      succeeds s (
        not (any_event r.required_events)
        && holds_line r.command.response_type r.command.transfer_direction))
  where
    succeeds : (s : NtStatus) (b : Bool) → (is_success s && b) ≡ (succeeded s && b)
    succeeds NtStatus.success b = refl
    succeeds NtStatus.pending b = refl
    succeeds NtStatus.more_processing_required b = refl
    succeeds NtStatus.io_timeout b = refl
    succeeds NtStatus.crc_error b = refl
    succeeds NtStatus.device_data_error b = refl
    succeeds NtStatus.device_protocol_error b = refl
    succeeds NtStatus.device_power_failure b = refl
    succeeds NtStatus.io_device_error b = refl
    succeeds NtStatus.invalid_parameter b = refl
    succeeds NtStatus.not_supported b = refl
    succeeds NtStatus.not_implemented b = refl
    succeeds NtStatus.device_configuration_error b = refl
    succeeds NtStatus.unsuccessful b = refl

-- What both branches have, the chosen one has.
if_same :
    {A B : Type 0} (f : A → B) (b : Bool) (x y : A) (v : B)
    → f x ≡ v
    → f y ≡ v
    → f (if b then x else y) ≡ v
if_same f true x y v p q = p
if_same f false x y v p q = q

if_Ended :
    (id : ℕ) (h : Host) (b : Bool) (x y : Host)
    → h.local_request_pending ≡ b
    → (x.local_request_pending ≡ false) × (x.completed ≡ h.completed)
    → y.completed ≡ (id, (y.requests id).status) ∷ h.completed
    → Ended id h (if b then x else y)
if_Ended id h true x y e p q = inr (e, p.0, p.1)
if_Ended id h false x y e p q = inl (e, q)

hand_over-Ended : (id : ℕ) (h : Host) → Ended id h (hand_over id h)
unfolding hand_over
hand_over-Ended id h =
    if_Ended id h h.local_request_pending (record h { local_request_pending = false })
      (record h { completed = (id, (h.requests id).status) ∷ h.completed }) refl (refl, refl) refl

-- What the end of a request is told by.
abbrev pub telling : Host → Bool × List (ℕ × NtStatus)
telling h = (h.local_request_pending, h.completed)

pub telling-Ended : (id : ℕ) (h c g : Host) → telling c ≡ telling h → Ended id c g → Ended id h g
telling-Ended id h c g e (inl (p, q)) = inl (
  sym (ap (λ (t : Bool × List (ℕ × NtStatus)). t.0) e) ∙ p,
  q ∙ ap (λ (t : Bool × List (ℕ × NtStatus)). (id, (g.requests id).status) ∷ t.1) e,
)
telling-Ended id h c g e (inr (p, q, r)) = inr (
  sym (ap (λ (t : Bool × List (ℕ × NtStatus)). t.0) e) ∙ p,
  q,
  r ∙ ap (λ (t : Bool × List (ℕ × NtStatus)). t.1) e,
)

module _ (device : ℕ → ℕ → ℕ) where
  is_card_inserted-telling : (h : Host) → telling (is_card_inserted device h).0 ≡ telling h
  unfolding is_card_inserted read_register
  is_card_inserted-telling h =
      if_same (λ (t : Host × Bool). telling t.0) h.broken_cd _ _ (telling h) refl refl

  release_request-Ended : (id : ℕ) (h : Host) → Ended id h (release_request device id h)
  unfolding release_request
  release_request-Ended id h =
      let status = (h.requests id).status in
      let a =
        if is_success status || is_more_processing status
        then record h { outstanding = none }
        else h in
      let same_a : telling a ≡ telling h =
        if_same telling (is_success status || is_more_processing status)
          (record h { outstanding = none }) h (telling h) refl refl in
      let b = is_card_inserted device a in
      let same_b : telling b.0 ≡ telling h = is_card_inserted-telling a ∙ same_a in
      let failed =
        set_request id (record (h.requests id) { status = NtStatus.io_device_error }) b.0 in
      let same_c : telling (if b.1 then b.0 else failed) ≡ telling h =
        if_same telling b.1 b.0 failed (telling h) same_b same_b in
      telling-Ended id h (if b.1 then b.0 else failed) (hand_over id (if b.1 then b.0 else failed))
        same_c (hand_over-Ended id (if b.1 then b.0 else failed))

  -- With a work item, and at `DISPATCH_LEVEL`, MshcCompleteRequest returns. If the request succeeded,
  -- requires no more events, may keep the data line busy by its response or its direction, and the
  -- status register answers that the line is busy, then the work item is queued, the port driver is
  -- told nothing, and the request stays outstanding; else the request ends: the port driver is told
  -- of it once, or, if it is the driver's own, it is no longer pending.
  pub complete_request_lem :
      (fuel : ℕ) (dispatch : Bool) (id : ℕ) (status : NtStatus) (h : Host)
      → (h.busy_work_item && dispatch) ≡ true
      → (g : Host) × (complete_request device (suc fuel) dispatch id status h ≡ some g)
        × (((must_wait status (h.requests id) && flag (device h.reads mshc_status) 9) ≡ true
              × Deferred h g)
            ⊎ ((must_wait status (h.requests id) && flag (device h.reads mshc_status) 9) ≡ false
                × Ended id h g))
  unfolding complete_request is_data_busy read_register
  complete_request_lem fuel dispatch id status h work =
      let r = record (h.requests id) { status = status } in
      let a = set_request id r h in
      let b = is_data_busy device a in
      elim (Bool-cases (may_be_busy status r)) [
        | inr e ↦ (
          release_request device id a,
          rw (e, complete_request) refl,
          inr (ground (arith, may_be_busy_lem status r, e), release_request-Ended id a),
        )
        | inl e ↦ elim (Bool-cases b.1) [
          | inr f ↦ (
            release_request device id b.0,
            rw (e, f, complete_request) refl,
            inr (ground (arith, f), release_request-Ended id b.0),
          )
          | inl f ↦ (
            record (b.0) { busy_work_queued = true },
            rw (e, f, work, complete_request) refl,
            inl (ground (arith, may_be_busy_lem status r, e, f), (refl, refl, refl, refl)),
          )
        ]
      ]
