-- ===== src/Sd/Sdhc/Blocks.antt =====
-- What `SdhcStartPioTransfer` does with a block.
use woa_rk.Base.{
  ℕ, suc, ◌+◌, ◌*◌, ◌<◌, ◌≤◌, Bool, true, false, List, [], ◌∷◌, ◌++◌, none, ◌≡◌, refl, sym, ap, ◌∙◌,
  ◌⊎◌, inl, inr, Bool-cases, arith, flag, leb, subst, ◌==◌, ==_iff, bit_or, u16,
}
use woa_rk.Base.Flags.{mask, flag-bit_or}
use woa_rk.Sd.Mshc.Types.{NtStatus, TransferDirection, direction_read}
use woa_rk.Sd.Sdhc.Types.{SdhcExtension, SdhcRequest, SdhcCommand, put_request}
use woa_rk.Sd.Sdhc.Fields.{is_transfer_complete, is_buffer_read_ready}
use woa_rk.Sd.Sdhc.Requests.{complete_request, is_command_completed, has_transfer}
use woa_rk.Sd.Sdhc.Port.{read_data_port}
use woa_rk.Sd.Sdhc.Commands.{is_read, buffer_ready, after_block, move_block, start_pio_transfer}
use woa_rk.Sd.Sdhc.Copied.{Copied, read_data_port-Copied}

-- What becomes of a read request by words of which a block was moved and `left` are left: either
-- the request asks for the next block behind this one, and is told to go on once the buffer is
-- ready; or it was the last, and the request has ended, if the end of the transfer was seen before
-- (`seen`), or waits for it.
abbrev pub Advanced :
    (id left size : ℕ) (seen : Bool) (r : SdhcRequest) → (h g : SdhcExtension) → Type 0
Advanced id left size seen r h g =
    ((g.requests id).command.block_count ≡ left)
    × (((1 ≤ left)
          × ((g.requests id).command.data_buffer ≡ r.command.data_buffer + size)
          × ((g.requests id).status ≡ NtStatus.more_processing_required)
          × (flag (g.requests id).required_events is_buffer_read_ready ≡ true)
          × (g.outstanding ≡ h.outstanding)
          × (g.completed ≡ h.completed))
        ⊎ ((left ≡ 0)
            × ((g.requests id).status ≡ NtStatus.success)
            × (((seen ≡ true)
                  × (g.outstanding ≡ none)
                  × (g.completed ≡ h.completed ++ (id, NtStatus.success) ∷ []))
                ⊎ ((seen ≡ false)
                    × (flag (g.requests id).required_events is_transfer_complete ≡ true)
                    × (g.outstanding ≡ h.outstanding)
                    × (g.completed ≡ h.completed)))))

-- A command without blocks left has ended, whether it moves data or not.
ended : (c : SdhcCommand) → c.block_count ≡ 0 → is_command_completed c ≡ true
unfolding is_command_completed
ended c e = elim (Bool-cases (has_transfer c.transfer_type)) [
  | inl f ↦ rw (f, is_command_completed, e) refl
  | inr f ↦ rw (f, is_command_completed) refl
]

here : (id : ℕ) (r : SdhcRequest) (h : SdhcExtension) → (put_request id r h).requests id ≡ r
here id r h = let e : (id == id) ≡ true = (==_iff id id).1 refl in rw e refl

-- The events that a request asks for in addition.
asks_ready :
    (d : TransferDirection) (required : ℕ)
    → d ≡ direction_read
    → flag (bit_or required (buffer_ready d)) is_buffer_read_ready ≡ true
unfolding buffer_ready
asks_ready d required e = rw (e, flag-bit_or) (ground arith)

asks_complete :
    (required : ℕ)
    → flag (bit_or required (mask (is_transfer_complete ∷ []))) is_transfer_complete ≡ true
asks_complete required = rw flag-bit_or (ground arith)

after_block-Advanced :
    (id left events : ℕ) (h : SdhcExtension)
    → (h.requests id).command.transfer_direction ≡ direction_read
    → Advanced id left
        (h.requests id).command.block_size
        (flag events is_transfer_complete)
        (h.requests id)
        h
        (after_block id left events h)
unfolding after_block complete_request
after_block-Advanced id left events h reads =
    let e : (id == id) ≡ true = (==_iff id id).1 refl in
    let r = h.requests id in
    elim (Bool-cases (leb 1 left)) [
      | inl f ↦
          let ready = asks_ready r.command.transfer_direction r.required_events reads in
          rw (f, after_block, e) (refl, inl (ground (arith, f), refl, refl, ready, refl, refl))
      | inr f ↦
          let none_left : left ≡ 0 = ground (arith, f) in
          elim (Bool-cases (flag events is_transfer_complete)) [
            | inl g ↦
                let over = ended (record r.command { block_count = left }) none_left in
                rw (f, g, after_block, e)
                  (refl, inr (none_left, refl, inl (refl, rw over refl, refl)))
            | inr g ↦
                let waits = asks_complete r.required_events in
                rw (f, g, after_block, e)
                  (refl, inr (none_left, refl, inr (refl, waits, refl, refl)))
          ]
    ]

after_block-memory :
    (id left events : ℕ) (h : SdhcExtension) → (after_block id left events h).memory ≡ h.memory
unfolding after_block complete_request
after_block-memory id left events h = elim (Bool-cases (leb 1 left)) [
  | inl f ↦ rw (f, after_block) refl
  | inr f ↦ elim (Bool-cases (flag events is_transfer_complete)) [
    | inl g ↦ rw (f, g, after_block) refl
    | inr g ↦ rw (f, g, after_block) refl
  ]
]

-- The same behind a move that changed memory alone.
moved-Advanced :
    (id left events n : ℕ) (f : ℕ → ℕ) (h m : SdhcExtension)
    → (h.requests id).command.transfer_direction ≡ direction_read
    → m ≡ record h { current_events = 0; reads = n; memory = f }
    → Advanced id left
        (h.requests id).command.block_size
        (flag events is_transfer_complete)
        (h.requests id)
        h
        (after_block id left events m)
moved-Advanced id left events n f h m reads keeps =
    let same : SdhcExtension = record h { current_events = 0; reads = n; memory = f } in
    let there : Advanced id left (h.requests id).command.block_size
        (flag events is_transfer_complete) (h.requests id) h (after_block id left events same) =
      after_block-Advanced id left events same reads in
    subst
      (λ (x : SdhcExtension).
        Advanced id left (h.requests id).command.block_size (flag events is_transfer_complete)
          (h.requests id) h (after_block id left events x))
      (sym keeps) there

module _ (device : List (ℕ × ℕ) → ℕ → ℕ → ℕ) where
  -- The block that a read request asks for next, in memory.
  abbrev pub moved : (id : ℕ) → SdhcExtension → SdhcExtension
  moved id h =
      read_data_port device (h.requests id).command.data_buffer (h.requests id).command.block_size
        (record h { current_events = 0 })

  move_block-read :
      (c : SdhcCommand) (h : SdhcExtension)
      → c.transfer_direction ≡ direction_read
      → move_block device c h ≡ read_data_port device c.data_buffer c.block_size h
  unfolding move_block is_read
  move_block-read c h e = rw (e, move_block) refl

  -- For a read request by words with `left + 1` blocks to go, of `words` words each, a start of the
  -- transfer copies one block from the data port to the buffer and nothing else of memory changes.
  -- Then the request has `left` blocks to go. If this is 0, the request ends at once if the end of
  -- the transfer was seen before, and waits for it else; if not, it is told to go on behind this
  -- block once the buffer is ready again, and is not over for the driver.
  pub start_pio_transfer-Advanced :
      (id left words : ℕ) (h : SdhcExtension)
      → (h.requests id).command.transfer_direction ≡ direction_read
      → (h.requests id).command.block_count ≡ suc left
      → (h.requests id).command.block_size ≡ 4 * words
      → left < 65535
      → Copied device
          (h.requests id).command.data_buffer
          words
          (record h { current_events = 0 })
          (moved id h)
        × ((start_pio_transfer device id h).0.memory ≡ (moved id h).memory)
        × Advanced id left
            (4 * words)
            (flag h.current_events is_transfer_complete)
            (h.requests id)
            h
            (start_pio_transfer device id h).0
  unfolding start_pio_transfer
  start_pio_transfer-Advanced id left words h reads count size lt =
      let r = h.requests id in
      let c = r.command in
      let start : SdhcExtension = record h { current_events = 0 } in
      let seen = flag h.current_events is_transfer_complete in
      let copied : Copied device c.data_buffer words start (moved id h) =
        subst
          (λ n.
            Copied device c.data_buffer words start (read_data_port device c.data_buffer n start))
          (sym size) (read_data_port-Copied device c.data_buffer words start) in
      let one_less : u16 (c.block_count + 65535) ≡ left = omega (arith, count, lt) in
      let move = move_block-read c start reads in
      let stays =
        moved-Advanced id left h.current_events (h.reads + words) (moved id h).memory h (moved id h)
          reads copied.keeps in
      (
        copied,
        after_block-memory id (u16 (c.block_count + 65535)) h.current_events
              (move_block device c start)
            ∙ ap (λ (x : SdhcExtension). x.memory) move,
        subst
            (λ x.
              Advanced id left (4 * words) seen r h
                (after_block id (u16 (c.block_count + 65535)) h.current_events x))
            (sym move)
            (subst
              (λ n.
                Advanced id left (4 * words) seen r h
                  (after_block id n h.current_events (moved id h)))
              (sym one_less)
              (subst
                (λ n.
                  Advanced id left n seen r h (after_block id left h.current_events (moved id h)))
                size stays)),
      )
