-- ===== src/Sd/Mshc/Handle.antt =====
-- What the interrupt handler does with the bits that it has read.
use woa_rk.Base.{ℕ, Bool, true, false, not, ◌&&◌, ◌||◌, [], ◌∷◌, if◌then◌else◌, flag, ◌≡◌, ◌⊎◌}
use woa_rk.Base.Flags.{mask, clear, any_flag}
use woa_rk.Sd.Mshc.Types.{Host, EventSet, ErrorSet, mshc_intmask, mshc_rintsts, mshc_idsts}
use woa_rk.Sd.Mshc.Fields.{int_cd, int_rxdr, int_txdr}
use woa_rk.Sd.Mshc.Events.{
  no_events, no_errors, any_event, any_error, events_or, errors_or, to_standard_events,
}
use woa_rk.Sd.Mshc.Interrupt.{Report, switch_status, mask_data_requests, report}

-- `g` is `h` but for the registers.
abbrev pub OnlyRegs : (h g : Host) → Type 0
OnlyRegs h g = g ≡ record h { regs = g.regs }

-- Something was found, outside of a crash dump, while a request of the driver's own is pending.
abbrev pub for_driver : EventSet → ErrorSet → (changed : Bool) → Host → Bool
for_driver events errors changed h =
    (any_event events || (any_error errors || changed))
    && not h.crashdump
    && h.local_request_pending

-- What comes of the events and errors that were found: if they are for a request of the driver's
-- own, they are saved with those that were there, and its DPC is queued; else they are given to
-- the port driver, and the interrupt is its own if something was found.
abbrev pub Given : EventSet → ErrorSet → (changed : Bool) → (h : Host) → Host × Report → Type 0
Given events errors changed h out =
    ((for_driver events errors changed h ≡ false)
      × (out.1.handled ≡ (any_event events || (any_error errors || changed)))
      × (out.1.events ≡ events)
      × (out.1.errors ≡ errors)
      × (out.0.current_events ≡ h.current_events)
      × (out.0.current_errors ≡ h.current_errors))
    ⊎ ((for_driver events errors changed h ≡ true)
        × (out.1.handled ≡ changed)
        × (out.1.events ≡ no_events)
        × (out.1.errors ≡ no_errors)
        × (out.0.local_dpc_queued ≡ true)
        × (out.0.current_events ≡ events_or h.current_events events)
        × (out.0.current_errors ≡ errors_or h.current_errors errors))

-- Requests, and what the port driver was told of them, stay as they are.
abbrev pub SameRequests : (h g : Host) → Type 0
SameRequests h g =
    (g.requests ≡ h.requests) × (g.outstanding ≡ h.outstanding) × (g.completed ≡ h.completed)

-- The status without a change of the card.
abbrev pub without_cd : ℕ → ℕ
without_cd status = if flag status int_cd then clear status (mask (int_cd ∷ [])) else status

-- What the handler does with the bits `r` and `i`: it writes back to each status register what was
-- read of it, unless this was 0 for the DMA controller's. If a data request is among the bits, it
-- is masked. No request changes and none is completed. A change of the card is reported if the
-- card's line is not broken. And the events and errors that the bits stand for are given to the
-- port driver, or saved for a request of the driver's own.
abbrev pub Handled : (r i : ℕ) (h : Host) → Host × Report → Type 0
Handled r i h out =
    (out.0.regs mshc_rintsts ≡ r)
    × ((i ≡ 0) ⊎ (out.0.regs mshc_idsts ≡ i))
    × ((any_flag (switch_status h r) (int_rxdr ∷ int_txdr ∷ []) ≡ false)
        ⊎ ((flag (out.0.regs mshc_intmask) int_rxdr ≡ false)
            × (flag (out.0.regs mshc_intmask) int_txdr ≡ false)))
    × SameRequests h out.0
    × (out.1.card_change ≡ (flag (switch_status h r) int_cd && not h.broken_cd))
    × Given (to_standard_events (without_cd (switch_status h r)) i).0
        (to_standard_events (without_cd (switch_status h r)) i).1
        (flag (switch_status h r) int_cd && not h.broken_cd) h out

-- The handler behind `switch_status`, from the state `a`.
with_status : (i status : ℕ) (a : Host) → Host × Report
with_status i status a =
    let b = mask_data_requests status a in
    let found = to_standard_events (without_cd status) i in
    report found.0 found.1 (flag status int_cd && not b.broken_cd) b
