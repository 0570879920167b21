-- ===== src/Sd/Sdhc/Steps.antt =====
-- The driver as steps: every call of it, in any order, and what the port driver does between them.
use woa_rk.Base.{
  ℕ, zero, suc, ◌+◌, ◌-◌, ◌==◌, Bool, true, false, List, Option, none, some, ◌≡◌, refl, sym, subst,
  inl, inr, Bool-cases, Option-cases, bit_or, flag, ltb, leb, if◌then◌else◌, u16,
}
use woa_rk.Sd.Mshc.Types.{
  NtStatus, nt_success, TransferMethod, RequestType, method_pio, method_sg_dma, method_undefined,
  command_no_transfer, command_with_transfer, start_transfer, other_request,
}
use woa_rk.Sd.Sdhc.Types.{SdhcExtension, SdhcRequest, SdhcCommand, sdhc_data_port}
use woa_rk.Sd.Sdhc.Fields.{is_transfer_complete}
use woa_rk.Sd.Sdhc.Registers.{store, load, loaded, then_do}
use woa_rk.Sd.Sdhc.Operations.{BusOperation, slot_issue_bus_operation}
use woa_rk.Sd.Sdhc.Interrupt.{
  convert_events_to_hw_mask, slot_toggle_events, slot_clear_events, slot_interrupt,
}
use woa_rk.Sd.Sdhc.Requests.{
  complete_request, end_request, clear_required, request_dpc, has_transfer,
}
use woa_rk.Sd.Sdhc.Port.{
  write_port, write_tail, write_words, write_data_port, read_port, read_tail, read_words,
  read_data_port,
}
use woa_rk.Sd.Sdhc.Commands.{
  is_read, set_transfer_mode, build_table, build_by, build_transfer, response_bits, names_transfer,
  issue_command, send_command, start_adma_transfer, after_block, move_block, start_pio_transfer,
  start_by, start_transfer_of, issue_by, slot_issue_request,
}
use woa_rk.Sd.Sdhc.Gated.{Gated, other_stored, Keeps}
use woa_rk.Sd.Sdhc.Kept.{
  acknowledge_interrupts-Keeps, slot_issue_bus_operation-Keeps, slot_toggle_events-Keeps,
  slot_interrupt-Keeps,
}

-- Both ends of a branch keep it.
either_keeps :
    (b : Bool) (x y : SdhcExtension)
    → Gated x.writes
    → Gated y.writes
    → Gated (if b then x else y).writes
either_keeps true x y p q = p
either_keeps false x y p q = q

write_tail-Keeps : (a length : ℕ) (h : SdhcExtension) → Keeps h (write_tail a length h)
unfolding write_tail write_port store
write_tail-Keeps a length h all = elim (Bool-cases (leb 2 length)) [
  | inl e ↦ elim (Bool-cases (leb 1 (length - 2))) [
    | inl f ↦ rw (e, f) (other_stored refl (other_stored refl all))
    | inr f ↦ rw (e, f) (other_stored refl all)
  ]
  | inr e ↦ elim (Bool-cases (leb 1 length)) [
    | inl f ↦ rw (e, f) (other_stored refl all)
    | inr f ↦ rw (e, f) all
  ]
]

write_words-Keeps : (fuel a length : ℕ) (h : SdhcExtension) → Keeps h (write_words fuel a length h)
unfolding write_words write_port store
write_words-Keeps zero a length h all = write_tail-Keeps a length h all
write_words-Keeps (suc fuel) a length h all =
    either_keeps (leb 4 length) _ _
      (write_words-Keeps fuel (a + 4) (length - 4) (write_port 4 sdhc_data_port a h)
        (other_stored refl all))
      (write_tail-Keeps a length h all)

set_transfer_mode-Keeps : (c : SdhcCommand) (h : SdhcExtension) → Keeps h (set_transfer_mode c h).0
unfolding set_transfer_mode store
set_transfer_mode-Keeps c h all = elim (Bool-cases (ltb 2048 c.block_size)) [
  | inl e ↦ rw (e, set_transfer_mode) all
  | inr e ↦ elim (Option-cases (is_read c.transfer_direction)) [
    | inl f ↦ rw (e, f, set_transfer_mode) all
    | inr (read, f) ↦
        rw (e, f, set_transfer_mode)
          (other_stored refl (other_stored refl (other_stored refl (other_stored refl all))))
  ]
]

build_by-Keeps :
    (m : TransferMethod) (c : SdhcCommand) (h : SdhcExtension) → Keeps h (build_by m c h).0
unfolding build_by build_table then_do store
build_by-Keeps method_pio c h = set_transfer_mode-Keeps c h
build_by-Keeps method_undefined c h = λ all. all
build_by-Keeps method_sg_dma c h = λ all.
    let kept = set_transfer_mode-Keeps c h all in
    elim (Bool-cases (nt_success (set_transfer_mode c h).1)) [
      | inl e ↦
          rw (e, build_by)
            (either_keeps ((set_transfer_mode c h).0.address_64bit) _ _
              (other_stored refl (other_stored refl kept)) (other_stored refl kept))
      | inr e ↦ rw (e, build_by) kept
    ]

after_block-Keeps :
    (id count events : ℕ) (h : SdhcExtension) → Keeps h (after_block id count events h)
unfolding after_block complete_request
after_block-Keeps id count events h all = elim (Bool-cases (leb 1 count)) [
  | inl e ↦ rw (e, after_block) all
  | inr e ↦ elim (Bool-cases (flag events is_transfer_complete)) [
    | inl f ↦ rw (e, f, after_block) all
    | inr f ↦ rw (e, f, after_block) all
  ]
]

end_request-writes :
    (id errors : ℕ) (h : SdhcExtension) → (end_request id errors h).writes ≡ h.writes
unfolding end_request complete_request
end_request-writes id errors h = elim (Bool-cases (errors == 0)) [
  | inl e ↦ elim (Bool-cases ((h.requests id).required_events == 0)) [
    | inl f ↦ rw (e, f, end_request) refl
    | inr f ↦ rw (e, f, end_request) refl
  ]
  | inr e ↦ rw (e, end_request) refl
]

dpc_writes :
    (o : Option ℕ) (id events errors : ℕ) (h : SdhcExtension)
    → (let after : SdhcExtension = elim o [
      | none ↦ h
      | some other ↦ end_request id errors (clear_required id events h)
    ] in
        after.writes ≡ h.writes)
unfolding clear_required
dpc_writes none id events errors h = refl
dpc_writes (some other) id events errors h =
    end_request-writes id errors (clear_required id events h)

request_dpc-writes :
    (id events errors : ℕ) (h : SdhcExtension) → (request_dpc id events errors h).writes ≡ h.writes
unfolding request_dpc
request_dpc-writes id events errors h =
    dpc_writes h.outstanding id events errors
      (record h { current_events = bit_or h.current_events events })

module _ (device : List (ℕ × ℕ) → ℕ → ℕ → ℕ) where
  read_tail-writes :
      (a length : ℕ) (h : SdhcExtension) → (read_tail device a length h).writes ≡ h.writes
  unfolding read_tail read_port loaded
  read_tail-writes a length h = elim (Bool-cases (leb 2 length)) [
    | inl e ↦ elim (Bool-cases (leb 1 (length - 2))) [
      | inl f ↦ rw (e, f) refl
      | inr f ↦ rw (e, f) refl
    ]
    | inr e ↦ elim (Bool-cases (leb 1 length)) [ inl f ↦ rw (e, f) refl | inr f ↦ rw (e, f) refl ]
  ]

  read_words-writes :
      (fuel a length : ℕ) (h : SdhcExtension)
      → (read_words device fuel a length h).writes ≡ h.writes
  unfolding read_words read_port loaded
  read_words-writes zero a length h = read_tail-writes a length h
  read_words-writes (suc fuel) a length h = elim (Bool-cases (leb 4 length)) [
    | inl e ↦
        rw (e, read_words)
          (read_words-writes fuel (a + 4) (length - 4) (read_port device 4 sdhc_data_port a h))
    | inr e ↦ rw (e, read_words) (read_tail-writes a length h)
  ]

  move_by :
      (c : SdhcCommand) (h : SdhcExtension) (way : Option Bool)
      → is_read c.transfer_direction ≡ way
      → Keeps h (move_block device c h)
  unfolding move_block write_data_port read_data_port
  move_by c h none e all =
      rw (e, move_block) (write_words-Keeps c.block_size c.data_buffer c.block_size h all)
  move_by c h (some false) e all =
      rw (e, move_block) (write_words-Keeps c.block_size c.data_buffer c.block_size h all)
  move_by c h (some true) e all =
      rw (e, move_block)
        (subst Gated (sym (read_words-writes c.block_size c.data_buffer c.block_size h)) all)

  issue_by_response :
      (id : ℕ) (h : SdhcExtension) (bits : Option ℕ)
      → response_bits (h.requests id).command.response_type ≡ bits
      → Keeps h (issue_command device id h).0
  unfolding issue_command store load loaded
  issue_by_response id h none e all = rw (e, issue_command) (other_stored refl all)
  issue_by_response id h (some bits) e all =
      elim (Bool-cases (names_transfer (h.requests id).command.transfer_type)) [
        | inl f ↦ rw (e, f, issue_command) (other_stored refl (other_stored refl all))
        | inr f ↦
            rw (e, f, issue_command) (other_stored refl (other_stored refl (other_stored refl all)))
      ]

  issue_command-Keeps : (id : ℕ) (h : SdhcExtension) → Keeps h (issue_command device id h).0
  issue_command-Keeps id h =
      issue_by_response id h (response_bits (h.requests id).command.response_type) refl

  send_command-Keeps : (id : ℕ) (h : SdhcExtension) → Keeps h (send_command device id h).0
  unfolding send_command then_do build_transfer
  send_command-Keeps id h all =
      let c = (h.requests id).command in
      let built = build_by c.transfer_method c h in
      let kept = build_by-Keeps (c.transfer_method) c h all in
      elim (Bool-cases (has_transfer c.transfer_type)) [
        | inl e ↦ elim (Bool-cases (nt_success built.1)) [
          | inl f ↦ rw (e, f, send_command) (issue_command-Keeps id built.0 kept)
          | inr f ↦ rw (e, f, send_command) kept
        ]
        | inr e ↦ rw (e, send_command) (issue_command-Keeps id h all)
      ]

  start_by-Keeps :
      (m : TransferMethod) (id : ℕ) (h : SdhcExtension) → Keeps h (start_by device m id h).0
  unfolding start_by start_pio_transfer start_adma_transfer complete_request
  start_by-Keeps method_pio id h all =
      let c = (h.requests id).command in
      let g = record h { current_events = 0 } in
      after_block-Keeps id (u16 (c.block_count + 65535)) h.current_events (move_block device c g)
        (move_by c g (is_read c.transfer_direction) refl all)
  start_by-Keeps method_sg_dma id h all = all
  start_by-Keeps method_undefined id h all = all

  issue_by-Keeps :
      (kind : RequestType) (id : ℕ) (h : SdhcExtension) → Keeps h (issue_by device kind id h).0
  unfolding issue_by start_transfer_of
  issue_by-Keeps command_no_transfer id h = send_command-Keeps id h
  issue_by-Keeps command_with_transfer id h = send_command-Keeps id h
  issue_by-Keeps start_transfer id h = start_by-Keeps (h.requests id).command.transfer_method id h
  issue_by-Keeps other_request id h = λ all. all

  -- A call of the driver, or a change that the port driver makes: it writes requests and memory,
  -- and takes completed requests away.
  pub data Step : SdhcExtension → SdhcExtension → Type 0 where
    bus_step :
        (op : BusOperation) (h : SdhcExtension) → Step h (slot_issue_bus_operation device op h).0
    request_step : (id : ℕ) (h : SdhcExtension) → Step h (slot_issue_request device id h).0
    interrupt_step : (h : SdhcExtension) → Step h (slot_interrupt device h).0
    dpc_step : (id events errors : ℕ) (h : SdhcExtension) → Step h (request_dpc id events errors h)
    toggle_step :
        (events : ℕ) (enable : Bool) (h : SdhcExtension)
        → Step h (slot_toggle_events device events enable h)
    clear_step : (events : ℕ) (h : SdhcExtension) → Step h (slot_clear_events events h)
    port_step :
        (requests : ℕ → SdhcRequest) (memory : ℕ → ℕ) (completed : List (ℕ × NtStatus))
        (h : SdhcExtension)
        → Step h (record h { requests = requests; memory = memory; completed = completed })

  pub data Steps : SdhcExtension → SdhcExtension → Type 0 where
    no_step : (h : SdhcExtension) → Steps h h
    then_step : {h g k : SdhcExtension} → Steps h g → Step g k → Steps h k

  Step-Keeps : (h g : SdhcExtension) → Step h g → Keeps h g
  unfolding slot_issue_request slot_clear_events
  Step-Keeps h g (bus_step op k) = slot_issue_bus_operation-Keeps device op k
  Step-Keeps h g (request_step id k) =
      issue_by-Keeps (k.requests id).kind id (record k { outstanding = some id })
  Step-Keeps h g (interrupt_step k) = slot_interrupt-Keeps device k
  Step-Keeps h g (dpc_step id events errors k) =
      subst Gated (sym (request_dpc-writes id events errors k))
  Step-Keeps h g (toggle_step events enable k) = slot_toggle_events-Keeps device events enable k
  Step-Keeps h g (clear_step events k) =
      acknowledge_interrupts-Keeps (convert_events_to_hw_mask events) k
  Step-Keeps h g (port_step requests memory completed k) = λ all. all

  -- However the calls of the driver follow each other and whatever the controller answers: if the
  -- clock divider of the SoC and the delay lines were stored only while the clock of the card was
  -- gated, this holds of all stores made since.
  pub Steps-Gated : (h g : SdhcExtension) → Steps h g → Gated h.writes → Gated g.writes
  Steps-Gated h g (no_step k) all = all
  Steps-Gated h g (then_step {g = m} steps step) all =
      Step-Keeps m g step (Steps-Gated h m steps all)
