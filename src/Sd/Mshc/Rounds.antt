-- ===== src/Sd/Mshc/Rounds.antt =====
-- The data requests of a whole read by words, one after the other.
use woa_rk.Base.{ℕ, zero, suc, ◌+◌, ◌*◌, ◌<◌, ◌≡◌, Bool, true, false, Option, none, some, ◌⊎◌, flag}
use woa_rk.Sd.Mshc.Types.{Host, NtStatus, mshc_status}
use woa_rk.Sd.Mshc.Ends.{Ended, Deferred}
use woa_rk.Sd.Mshc.Transfers.{start_pio_transfer}
use woa_rk.Sd.Mshc.Pio.{Words, Reads, buffer_of, asked}

module _ (device : ℕ → ℕ → ℕ) where
  -- After `n` data requests from `h`, `g` has one more to come.
  record Read (id threshold n : ℕ) (h g : Host) : Type 0 where
    reads_on : Reads id threshold g
    rest : g.remaining_length ≡ 4 * threshold
    buffer : buffer_of id g ≡ buffer_of id h + 4 * (n * threshold)
    reads : g.reads ≡ h.reads + n * threshold
    words : Words device (buffer_of id h) h.reads (n * threshold) g
    below : (a : ℕ) → a < buffer_of id h → g.memory a ≡ h.memory a
    same : asked device g ≡ asked device h

  module _ (fuel : ℕ) (dispatch : Bool) (id : ℕ) where
    -- `MshcStartPioTransfer`, `n` times.
    unfoldable pub pio_rounds : ℕ → Host → Option Host
    pio_rounds zero h = some h
    pio_rounds (suc n) h = elim (start_pio_transfer device fuel dispatch id h) [
      | none ↦ none
      | some g ↦ pio_rounds n g
    ]

  -- What comes of the request behind its last word, where `ended` is whether the end of the data has
  -- come: if not, it waits for it, its status is success and the port driver is told nothing; else it
  -- ends, or, while the status register answers that the line is busy, waits for the work item.
  abbrev pub LastMoved : (id : ℕ) (ended : Bool) (h g out : Host) → Type 0
  LastMoved id ended h g out =
      ((ended ≡ false)
        × ((out.requests id).required_events.card_rw_end ≡ true)
        × ((out.requests id).status ≡ NtStatus.success)
        × (asked device out ≡ asked device h)
        × (out.memory ≡ g.memory))
      ⊎ ((ended ≡ true)
          × (Ended id h out ⊎ ((flag (device g.reads mshc_status) 9 ≡ true) × Deferred h out)))
