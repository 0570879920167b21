-- ===== src/Sd/Mshc/Arrival.antt =====
-- Events that arrive one batch after the other, `MshcRequestDpc`.
use woa_rk.Base.{
  ℕ, suc, sym, flag, ◌⊎◌, inl, inr, Bool, true, false, not, ◌&&◌, ◌||◌, List, [], ◌∷◌, ◌++◌, Option,
  none, some, ◌≡◌, refl, ap, ◌∙◌, if◌then◌else◌, arith,
}
use woa_rk.Sd.Mshc.Types.{Host, NtStatus, mshc_status, EventSet, ErrorSet}
use woa_rk.Sd.Mshc.Events.{
  no_events, no_errors, any_event, any_error, events_or, errors_or, events_clear,
}
use woa_rk.Sd.Mshc.Requests.{
  save_events, clear_required, end_request, judge_request, request_dpc, is_more_processing,
}
use woa_rk.Sd.Mshc.Ends.{Ended, Deferred, telling, telling-Ended, complete_request_lem}
use woa_rk.Sd.Mshc.Pio.{asked}

-- All events of the batches.
abbrev pub union : List EventSet → EventSet
union [] = no_events
union (e ∷ es) = events_or e (union es)

-- Each batch has an event.
abbrev pub AllSome : List EventSet → Type 0
AllSome [] = Unit
AllSome (e ∷ es) = (any_event e ≡ true) × AllSome es

-- What the request at `id` waits for.
abbrev pub required : (id : ℕ) → Host → EventSet
required id h = (h.requests id).required_events

-- The state after a batch that does not end the request, and after several.
unfoldable pub collect_batch : (id : ℕ) → EventSet → Host → Host
unfolding save_events clear_required
collect_batch id e h = clear_required id e (save_events e no_errors h)

abbrev pub collect_batches : (id : ℕ) → List EventSet → Host → Host
collect_batches id [] h = h
collect_batches id (e ∷ es) h = collect_batches id es (collect_batch id e h)

same_events :
    {a b : EventSet}
    → a.card_response ≡ b.card_response
    → a.card_rw_end ≡ b.card_rw_end
    → a.buffer_empty ≡ b.buffer_empty
    → a.buffer_full ≡ b.buffer_full
    → a.card_change ≡ b.card_change
    → a.dma_complete ≡ b.dma_complete
    → a.error ≡ b.error
    → a ≡ b
same_events p q r s t u v = λ i. record {
  card_response = p i;
  card_rw_end = q i;
  buffer_empty = r i;
  buffer_full = s i;
  card_change = t i;
  dma_complete = u i;
  error = v i;
}

cleared_twice : (x y z : Bool) → ((x && not y) && not z) ≡ (x && not (y || z))
cleared_twice x y z = ground arith

clear_none : (x : Bool) → x ≡ (x && true)
clear_none x = ground arith

events_clear-events_or :
    (x y z : EventSet) → events_clear (events_clear x y) z ≡ events_clear x (events_or y z)
unfolding events_clear events_or
events_clear-events_or x y z =
    same_events (cleared_twice _ _ _) (cleared_twice _ _ _) (cleared_twice _ _ _)
      (cleared_twice _ _ _) (cleared_twice _ _ _) (cleared_twice _ _ _) (cleared_twice _ _ _)

events_clear-no_events : (x : EventSet) → x ≡ events_clear x no_events
unfolding events_clear
events_clear-no_events x =
    same_events (clear_none _) (clear_none _) (clear_none _) (clear_none _) (clear_none _)
      (clear_none _) (clear_none _)

-- What is left after clearing was there before.
any_event-events_clear : (x y : EventSet) → any_event (events_clear x y) ≡ true → any_event x ≡ true
unfolding any_event events_clear
any_event-events_clear x y h = ground (arith, h)

any_error-none : (x : ErrorSet) → any_error (errors_or x no_errors) ≡ any_error x
unfolding any_error errors_or
any_error-none x = simp or_false refl
  where
    or_false : (b : Bool) → (b || false) ≡ b
    or_false b = ground arith

required-collect_batch :
    (id : ℕ) (e : EventSet) (h : Host)
    → required id (collect_batch id e h) ≡ events_clear (required id h) e
unfolding collect_batch clear_required save_events
required-collect_batch id e h = ground arith

required-collect_batches :
    (id : ℕ) (es : List EventSet) (h : Host)
    → required id (collect_batches id es h) ≡ events_clear (required id h) (union es)
required-collect_batches id [] h = events_clear-no_events (required id h)
required-collect_batches id (e ∷ es) h =
    required-collect_batches id es (collect_batch id e h)
    ∙ ap (λ x. events_clear x (union es)) (required-collect_batch id e h)
    ∙ events_clear-events_or (required id h) e (union es)

module _ (device : ℕ → ℕ → ℕ) (fuel : ℕ) (dispatch : Bool) (id : ℕ) where
  -- `MshcRequestDpc`, called for one batch after the other, without errors.
  unfoldable pub dpcs : List EventSet → Host → Option Host
  dpcs [] h = some h
  dpcs (e ∷ es) h = elim (request_dpc device fuel dispatch id e no_errors h) [
    | none ↦ none
    | some g ↦ dpcs es g
  ]

  errors-collect_batch :
      (e : EventSet) (h : Host)
      → any_error (collect_batch id e h).current_errors ≡ any_error h.current_errors
  unfolding collect_batch clear_required save_events
  errors-collect_batch e h = any_error-none h.current_errors

  judge_request-quiet :
      (e : EventSet) (g : Host)
      → any_error g.current_errors ≡ false
      → judge_request device fuel dispatch id e g ≡ (
          if not (any_event (required id g)) then end_request device fuel dispatch id g else some g)
  unfolding judge_request
  judge_request-quiet e g no_error = rw no_error refl

  judge_request-batch :
      (e : EventSet) (h : Host)
      → any_error h.current_errors ≡ false
      → judge_request device fuel dispatch id e (clear_required id e (save_events e no_errors h))
        ≡ (if not (any_event (required id (collect_batch id e h)))
            then end_request device fuel dispatch id (collect_batch id e h)
            else some (collect_batch id e h))
  unfolding collect_batch
  judge_request-batch e h no_error =
      judge_request-quiet e (collect_batch id e h) (errors-collect_batch e h ∙ no_error)

  -- A batch without errors, while the request is outstanding and has not failed.
  request_dpc-batch :
      (e : EventSet) (h : Host) (k : ℕ)
      → any_event e ≡ true
      → any_event (required id h) ≡ true
      → any_error h.current_errors ≡ false
      → h.outstanding ≡ some k
      → request_dpc device fuel dispatch id e no_errors h ≡ (
          if not (any_event (required id (collect_batch id e h)))
          then end_request device fuel dispatch id (collect_batch id e h)
          else some (collect_batch id e h))
  unfolding request_dpc
  request_dpc-batch e h k some_event waits no_error out =
      rw (some_event, waits)
        (ap
            (λ o. elim o [
              | none ↦ some (save_events e no_errors h)
              | some other ↦
                  judge_request device fuel dispatch id e
                    (clear_required id e (save_events e no_errors h))
            ])
            out
          ∙ judge_request-batch e h no_error)

  outstanding-collect_batch :
      (e : EventSet) (h : Host) → (collect_batch id e h).outstanding ≡ h.outstanding
  unfolding collect_batch clear_required save_events
  outstanding-collect_batch e h = refl

  -- A batch that leaves the request waiting.
  waiting_step :
      (e : EventSet) (es : List EventSet) (h : Host) (k : ℕ) (r : EventSet)
      → any_event e ≡ true
      → required id h ≡ r
      → any_event (events_clear (events_clear r e) (union es)) ≡ true
      → any_error h.current_errors ≡ false
      → h.outstanding ≡ some k
      → request_dpc device fuel dispatch id e no_errors h ≡ some (collect_batch id e h)
  waiting_step e es h k r some_event same left no_error out =
      let waits' : any_event (events_clear r e) ≡ true =
        any_event-events_clear (events_clear r e) (union es) left in
      let waits : any_event r ≡ true = any_event-events_clear r e waits' in
      let next : required id (collect_batch id e h) ≡ events_clear r e =
        required-collect_batch id e h ∙ ap (λ x. events_clear x e) same in
      request_dpc-batch e h k some_event (ap any_event same ∙ waits) no_error out
      ∙ ap
          (λ b.
            if not b
            then end_request device fuel dispatch id (collect_batch id e h)
            else some (collect_batch id e h))
          (ap any_event next ∙ waits')

  -- As long as the batches leave the request waiting, they are only collected.
  dpcs-collect_batches :
      (es : List EventSet) (h : Host) (k : ℕ) (r : EventSet)
      → AllSome es
      → required id h ≡ r
      → any_event (events_clear r (union es)) ≡ true
      → any_error h.current_errors ≡ false
      → h.outstanding ≡ some k
      → dpcs es h ≡ some (collect_batches id es h)
  unfolding dpcs
  dpcs-collect_batches [] h k r all same left no_error out = refl
  dpcs-collect_batches (e ∷ es) h k r all same left no_error out =
      let left' : any_event (events_clear (events_clear r e) (union es)) ≡ true =
        rw (events_clear-events_or r e (union es)) left in
      let next : required id (collect_batch id e h) ≡ events_clear r e =
        required-collect_batch id e h ∙ ap (λ x. events_clear x e) same in
      ap (λ o. elim o [ none ↦ none | some g ↦ dpcs es g ])
        (waiting_step e es h k r all.0 same left' no_error out)
      ∙ dpcs-collect_batches es (collect_batch id e h) k (events_clear r e) all.1 next left'
          (errors-collect_batch e h ∙ no_error) (outstanding-collect_batch e h ∙ out)

  -- The batch that ends the wait.
  dpcs-last :
      (e : EventSet) (es : List EventSet) (h : Host) (k : ℕ) (r : EventSet)
      → AllSome es
      → any_event e ≡ true
      → required id h ≡ r
      → any_event (events_clear r (union es)) ≡ true
      → any_event (events_clear (events_clear r (union es)) e) ≡ false
      → any_error h.current_errors ≡ false
      → h.outstanding ≡ some k
      → dpcs (es ++ e ∷ []) h
        ≡ end_request device fuel dispatch id (collect_batch id e (collect_batches id es h))
  unfolding dpcs
  dpcs-last e [] h k r all some_event same left done no_error out =
      let waits : any_event (required id h) ≡ true =
        ap any_event (same ∙ events_clear-no_events r) ∙ left in
      let over : any_event (required id (collect_batch id e h)) ≡ false =
        ap any_event (
          required-collect_batch id e h
          ∙ ap (λ x. events_clear x e) (same ∙ events_clear-no_events r))
        ∙ done in
      let step : request_dpc device fuel dispatch id e no_errors h
          ≡ end_request device fuel dispatch id (collect_batch id e h) =
        request_dpc-batch e h k some_event waits no_error out
        ∙ ap
            (λ b.
              if not b
              then end_request device fuel dispatch id (collect_batch id e h)
              else some (collect_batch id e h))
            over in
      ap (λ o. elim o [ none ↦ none | some g ↦ some g ]) step
      ∙ still (end_request device fuel dispatch id (collect_batch id e h))
    where
      still : (o : Option Host) → (elim o [ none ↦ none | some g ↦ some g ]) ≡ o
      still none = refl
      still (some g) = refl
  dpcs-last e (d ∷ es) h k r all some_event same left done no_error out =
      let left' : any_event (events_clear (events_clear r d) (union es)) ≡ true =
        rw (events_clear-events_or r d (union es)) left in
      let done' : any_event (events_clear (events_clear (events_clear r d) (union es)) e) ≡ false =
        rw (events_clear-events_or r d (union es)) done in
      let next : required id (collect_batch id d h) ≡ events_clear r d =
        required-collect_batch id d h ∙ ap (λ x. events_clear x d) same in
      ap (λ o. elim o [ none ↦ none | some g ↦ dpcs (es ++ e ∷ []) g ])
        (waiting_step d es h k r all.0 same left' no_error out)
      ∙ dpcs-last e es (collect_batch id d h) k (events_clear r d) all.1 some_event next left' done'
          (errors-collect_batch d h ∙ no_error) (outstanding-collect_batch d h ∙ out)

module _ (device : ℕ → ℕ → ℕ) (fuel : ℕ) (dispatch : Bool) (id : ℕ) where
  -- What collecting a batch leaves alone.
  asked-collect_batch :
      (e : EventSet) (h : Host)
      → (asked device (collect_batch id e h) ≡ asked device h)
        × ((collect_batch id e h).reads ≡ h.reads)
  unfolding collect_batch save_events clear_required
  asked-collect_batch e h = (refl, refl)

  asked-collect_batches :
      (es : List EventSet) (h : Host)
      → (asked device (collect_batches id es h) ≡ asked device h)
        × ((collect_batches id es h).reads ≡ h.reads)
  asked-collect_batches [] h = (refl, refl)
  asked-collect_batches (e ∷ es) h =
      let (all, reads) = asked-collect_batches es (collect_batch id e h) in
      let (one, read) = asked-collect_batch e h in (all ∙ one, reads ∙ read)

  -- If the request at `id` is outstanding without errors, there is a work item at `DISPATCH_LEVEL`, and
  -- batches of events come of which each has an event and none an error, then as long as some event
  -- that it requires has not come, the port driver is told nothing, the request stays outstanding and
  -- what it requires is what has not come. With the batch after which none is left, the request ends:
  -- the port driver is told of it once, or, if it is the driver's own, it is no longer pending; only
  -- while the status register answers that the line is busy, the work item is queued instead.
  pub dpcs_lem :
      (e : EventSet) (es : List EventSet) (h : Host) (k : ℕ)
      → AllSome es
      → any_event e ≡ true
      → any_event (events_clear (required id h) (union es)) ≡ true
      → any_event (events_clear (events_clear (required id h) (union es)) e) ≡ false
      → any_error h.current_errors ≡ false
      → h.outstanding ≡ some k
      → (h.busy_work_item && dispatch) ≡ true
      → ((g : Host) × (dpcs device (suc fuel) dispatch id es h ≡ some g)
          × (asked device g ≡ asked device h)
          × (required id g ≡ events_clear (required id h) (union es)))
        × (g : Host) × (dpcs device (suc fuel) dispatch id (es ++ e ∷ []) h ≡ some g)
        × (Ended id h g ⊎ ((flag (device h.reads mshc_status) 9 ≡ true) × Deferred h g))
  unfolding end_request
  dpcs_lem e es h k all some_event left done no_error out work =
      let c = collect_batches id es h in
      let m = collect_batch id e c in
      let status = (m.requests id).status in
      let (same_c, reads_c) = asked-collect_batches es h in
      let (same_m, reads_m) = asked-collect_batch e c in
      let same : asked device m ≡ asked device h = same_m ∙ same_c in
      let reads : m.reads ≡ h.reads = reads_m ∙ reads_c in
      let item = ap (λ (t : List (ℕ × NtStatus) × Option ℕ × Bool × Bool). t.3) same in
      let told : telling m ≡ telling h =
        ap (λ (t : List (ℕ × NtStatus) × Option ℕ × Bool × Bool). (t.2, t.0)) same in
      let told_m = ap (λ (t : List (ℕ × NtStatus) × Option ℕ × Bool × Bool). t.0) same in
      let out_m = ap (λ (t : List (ℕ × NtStatus) × Option ℕ × Bool × Bool). t.1) same in
      let own_m = ap (λ (t : List (ℕ × NtStatus) × Option ℕ × Bool × Bool). t.2) same in
      let (s, ends, why) =
        complete_request_lem device fuel dispatch id
          (if is_more_processing status then status else NtStatus.success) m
          (ap (λ b. b && dispatch) item ∙ work) in
      (
        (
          c,
          dpcs-collect_batches device (suc fuel) dispatch id es h k (required id h) all refl left
              no_error out,
          same_c,
          required-collect_batches id es h,
        ),
        s,
        dpcs-last device (suc fuel) dispatch id e es h k (required id h) all some_event refl left
              done no_error out
            ∙ ends,
        elim why [
          | inl (busy, (queued, quiet, kept, pending)) ↦ inr (
            ap (λ n. flag (device n mshc_status) 9) (sym reads) ∙ ground (arith, busy),
            (queued, quiet ∙ told_m, kept ∙ out_m, pending ∙ own_m),
          )
          | inr (quiet, ended) ↦ inl (telling-Ended id h m s told ended)
        ],
      )
