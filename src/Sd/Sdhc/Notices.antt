-- ===== src/Sd/Sdhc/Notices.antt =====
-- What the interrupt handler makes of the bits that it has read.
use woa_rk.Base.{
  ℕ, ◌-◌, ◌<◌, Bool, true, not, ◌||◌, ◌&&◌, [], ◌∷◌, some, ◌≡◌, flag, ◌==◌, if◌then◌else◌,
}
use woa_rk.Base.Flags.{mask, clear}
use woa_rk.Sd.Sdhc.Types.{SdhcExtension, sdhc_interrupt_status, sdhc_error_status}
use woa_rk.Sd.Sdhc.Fields.{
  is_card_insertion, is_card_removal, is_card_interrupt, is_tuning_interrupt, is_error_interrupt,
}
use woa_rk.Sd.Sdhc.Registers.{last_store}
use woa_rk.Sd.Sdhc.Interrupt.{Notice, notice_bits}

-- A bit is taken out of the events or is one of those that are told apart.
kept_or_told : ℕ → Bool
kept_or_told k =
    not (flag 0 k)
    && (flag (4294967295 - mask notice_bits) k
        || (k == is_card_insertion
            || (k == is_card_removal || (k == is_card_interrupt || k == is_tuning_interrupt))))

-- The bits of the status register for an inserted card, a removed card, a card's interrupt and for
-- tuning.
abbrev told_apart : ℕ → Bool
told_apart k = k == 6 || (k == 7 || (k == 8 || k == 12))

told_test : ℕ → Bool
told_test k = if flag (4294967295 - mask notice_bits) k then not (told_apart k) else told_apart k

-- What the port driver is told: each bit of the 16 that is not told apart, the errors, and the four
-- that are.
pub record Told (events errors : ℕ) (n : Notice) : Type 0 where
  pub others : (k : ℕ) → k < 16 → flag n.events k ≡ (flag events k && not (told_apart k))
  pub errors_told : n.errors ≡ errors
  pub card : n.card_change ≡ (flag events 6 || flag events 7)
  pub sdio : n.sdio_interrupt ≡ flag events 8
  pub retune : n.tuning ≡ flag events 12

-- What the handler does with the bits `events` of the status register: it tells the port driver,
-- and clears in the status register what it has read, with the errors first if there are any.
abbrev pub Reported : (events errors : ℕ) → SdhcExtension → SdhcExtension × Notice × Bool → Type 0
Reported events errors h r =
    Told events errors r.1
    × (r.2 ≡ true)
    × (last_store sdhc_interrupt_status r.0.writes
        ≡ some (
            if flag events is_error_interrupt
            then clear events (mask (is_error_interrupt ∷ []))
            else events))
    × (flag events is_error_interrupt ≡ true
        → last_store sdhc_error_status r.0.writes ≡ some 0xFFFF)
    × (r.0.requests ≡ h.requests)
    × (r.0.completed ≡ h.completed)
