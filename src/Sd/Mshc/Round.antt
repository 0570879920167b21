-- ===== src/Sd/Mshc/Round.antt =====
-- The two translations of events, one after the other.
use woa_rk.Base.{
  ℕ, Bool, true, false, ◌||◌, ◌&&◌, [], ◌∷◌, if◌then◌else◌, flag, ◌≡◌, refl, ap, arith,
}
use woa_rk.Base.Flags.{mask, any_flag, or_if, flag-or_if, flag-bit_or}
use woa_rk.Sd.Mshc.Types.{EventSet, ErrorSet}
use woa_rk.Sd.Mshc.Fields.{
  int_rxdr, int_txdr, int_dto, int_cmd, int_cd, idint_ais, idint_nis, idint_ri, idint_ti, int_error,
}
use woa_rk.Sd.Mshc.Events.{
  no_events, events_or, to_standard_events, with_errors, with_events, to_int_status,
}

flag-with_events :
    (e : EventSet) (k : ℕ)
    → flag (with_events e) k ≡ (
        ((((flag 0 k || (e.card_response && flag 4 k)) || (e.card_rw_end && flag 8 k))
            || (e.buffer_empty && flag 16 k))
          || (e.buffer_full && flag 32 k))
        || (e.card_change && flag 1 k))
unfolding with_events
flag-with_events e k = rw (flag-or_if, flag-or_if, flag-or_if, flag-or_if, flag-or_if) refl

flag-with_errors :
    (e : ErrorSet) (x k : ℕ)
    → flag (with_errors e x) k ≡ (
        ((((((((flag x k || flag (mask int_error) k) || (e.cmd_timeout && flag 256 k))
                    || (e.cmd_crc_error && flag 64 k))
                  || ((e.cmd_end_bit_error || e.cmd_index_error) && flag 2 k))
                || (e.data_timeout && flag 512 k))
              || (e.data_crc_error && flag 128 k))
            || (e.data_end_bit_error && flag 32768 k))
          || (e.generic_io_error && flag 14336 k))
        || (e.adma_error && flag 564 k))
unfolding with_errors
flag-with_errors e x k =
    rw
      (
        flag-or_if, flag-or_if, flag-or_if, flag-or_if, flag-or_if, flag-or_if, flag-or_if,
        flag-or_if, flag-bit_or,
      )
      refl

event_card_response : (e : EventSet) → flag (with_events e) int_cmd ≡ e.card_response
event_card_response e = ground (arith, flag-with_events e int_cmd)

event_card_rw_end : (e : EventSet) → flag (with_events e) int_dto ≡ e.card_rw_end
event_card_rw_end e = ground (arith, flag-with_events e int_dto)

event_buffer_empty : (e : EventSet) → flag (with_events e) int_txdr ≡ e.buffer_empty
event_buffer_empty e = ground (arith, flag-with_events e int_txdr)

event_buffer_full : (e : EventSet) → flag (with_events e) int_rxdr ≡ e.buffer_full
event_buffer_full e = ground (arith, flag-with_events e int_rxdr)

event_card_change : (e : EventSet) → flag (with_events e) int_cd ≡ e.card_change
event_card_change e = ground (arith, flag-with_events e int_cd)

error_card_response :
    (er : ErrorSet) (x : ℕ) → flag (with_errors er x) int_cmd ≡ (flag x int_cmd || er.adma_error)
error_card_response er x = ground (arith, flag-with_errors er x int_cmd)

error_card_rw_end : (er : ErrorSet) (x : ℕ) → flag (with_errors er x) int_dto ≡ flag x int_dto
error_card_rw_end er x = ground (arith, flag-with_errors er x int_dto)

error_buffer_empty :
    (er : ErrorSet) (x : ℕ) → flag (with_errors er x) int_txdr ≡ (flag x int_txdr || er.adma_error)
error_buffer_empty er x = ground (arith, flag-with_errors er x int_txdr)

error_buffer_full :
    (er : ErrorSet) (x : ℕ) → flag (with_errors er x) int_rxdr ≡ (flag x int_rxdr || er.adma_error)
error_buffer_full er x = ground (arith, flag-with_errors er x int_rxdr)

error_card_change : (er : ErrorSet) (x : ℕ) → flag (with_errors er x) int_cd ≡ flag x int_cd
error_card_change er x = ground (arith, flag-with_errors er x int_cd)

-- What the ADMA error adds to the events: its four bits of the other register are, in this one,
-- those of a command's end, of a full and of an empty buffer, and of a data read timeout.
unfoldable pub spilled : Bool → EventSet
spilled b = record no_events { card_response = b; buffer_empty = b; buffer_full = b }

-- `*Intsts`, with the event of an error as a variable.
int_bits : Bool → EventSet → ErrorSet → ℕ
int_bits b e er = if b then with_errors er (with_events e) else with_events e

int_bits_events :
    (b : Bool) (e : EventSet) (er : ErrorSet)
    → (flag (int_bits b e er) int_cmd ≡ (e.card_response || (b && er.adma_error)))
      × (flag (int_bits b e er) int_dto ≡ (e.card_rw_end || false))
      × (flag (int_bits b e er) int_txdr ≡ (e.buffer_empty || (b && er.adma_error)))
      × (flag (int_bits b e er) int_rxdr ≡ (e.buffer_full || (b && er.adma_error)))
      × (flag (int_bits b e er) int_cd ≡ (e.card_change || false))
unfolding int_bits
int_bits_events true e er = (
  rw (error_card_response er (with_events e), event_card_response e) refl,
  rw (error_card_rw_end er (with_events e), event_card_rw_end e) (ground arith),
  rw (error_buffer_empty er (with_events e), event_buffer_empty e) refl,
  rw (error_buffer_full er (with_events e), event_buffer_full e) refl,
  rw (error_card_change er (with_events e), event_card_change e) (ground arith),
)
int_bits_events false e er = (
  rw (event_card_response e) (ground arith),
  rw (event_card_rw_end e) (ground arith),
  rw (event_buffer_empty e) (ground arith),
  rw (event_buffer_full e) (ground arith),
  rw (event_card_change e) (ground arith),
)

idint_bits :
    (b : Bool) (k : ℕ)
    → flag (or_if b (mask (idint_nis ∷ idint_ti ∷ idint_ri ∷ [])) 0) k
      ≡ (flag 0 k || (b && flag 259 k))
idint_bits b k = flag-or_if b 259 0 k

int_bits_error :
    (b c : Bool) (e : EventSet) (er : ErrorSet)
    → (any_flag (int_bits b e er) int_error
        || flag (or_if c (mask (idint_nis ∷ idint_ti ∷ idint_ri ∷ [])) 0) idint_ais)
      ≡ (b || false)
unfolding int_bits
int_bits_error true c e er =
    let set : flag (with_errors er (with_events e)) 15 ≡ true =
      ground (arith, flag-with_errors er (with_events e) 15, flag-with_events e 15) in
    rw set refl
int_bits_error false c e er =
    rw
      (
        flag-with_events, flag-with_events, flag-with_events, flag-with_events, flag-with_events,
        flag-with_events, flag-with_events, flag-with_events, flag-with_events, flag-with_events,
      )
      (ground (arith, idint_bits c 9))

dma_bits :
    (c : Bool)
    → any_flag
        (or_if c (mask (idint_nis ∷ idint_ti ∷ idint_ri ∷ [])) 0)
        (idint_nis ∷ idint_ti ∷ idint_ri ∷ [])
      ≡ (c || false)
dma_bits c = ground (arith, idint_bits c 8, idint_bits c 0, idint_bits c 1)

-- If events and errors are translated to interrupt bits and these back to events, the events come
-- back; if an error is among the events and an ADMA error among the errors, then a card response,
-- an empty and a full buffer come with them.
pub to_standard_events-to_int_status :
    (e : EventSet) (er : ErrorSet)
    → (to_standard_events (to_int_status e er).0 (to_int_status e er).1).0
      ≡ events_or e (spilled (e.error && er.adma_error))
unfolding to_standard_events to_int_status events_or spilled int_bits
to_standard_events-to_int_status e er =
    let (response, rw_end, empty, full, change) = int_bits_events e.error e er in
    let failed = int_bits_error e.error e.dma_complete e er in
    let dma = dma_bits e.dma_complete in
    ap
      (λ (x : Bool × Bool × Bool × Bool × Bool × Bool × Bool). record {
        card_response = x.0;
        card_rw_end = x.1;
        buffer_empty = x.2;
        buffer_full = x.3;
        card_change = x.4;
        dma_complete = x.5;
        error = x.6;
      })
      (λ i. (response i, rw_end i, empty i, full i, change i, dma i, failed i))
