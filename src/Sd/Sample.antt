-- ===== src/Sd/Sample.antt =====
-- The phase that the tuning chooses.
use woa_rk.Base.{
  ℕ, zero, suc, ◌+◌, ◌-◌, ◌/◌, ◌%◌, ◌≤◌, ◌<◌, Bool, true, false, ◌&&◌, ◌≡◌, refl, sym, ap, subst,
  ◌∙◌, inl, inr, ◌⊎◌, Bool-cases, ◌==◌, ==_iff, ==_ne, ltb, ltb→lt, ltb→le, if◌then◌else◌, arith,
  none, some,
}
use woa_rk.Sd.Tuning.{
  num_phases, Range, Scan, scan, start_scan, merge, range_length, longest, choose, tune,
}
use woa_rk.Sd.Phases.{Run, Found, start_scan-Found, scan-Found}

-- All phases of the range are good, where it may go on at 0 behind the last phase.
record Circle (ok : ℕ → Bool) (r : Range) : Type 0 where
  some_phase : 0 < range_length r
  good : (j : ℕ) → j < range_length r → ok ((r.first + j) % num_phases) ≡ true

length_straight : (r : Range) → r.first ≤ r.last → range_length r ≡ r.last + 1 - r.first
unfolding range_length
length_straight r h = let e : ltb (r.last + 1) r.first ≡ false = ground (arith, h) in rw e refl

length_around :
    (r : Range) → r.last + 1 < r.first → range_length r ≡ r.last + 1 + num_phases - r.first
unfolding range_length
length_around r h = let e : ltb (r.last + 1) r.first ≡ true = ground (arith, h) in rw e refl

Run-Circle : (ok : ℕ → Bool) (r : Range) → Run ok num_phases r → Circle ok r
Run-Circle ok r p =
    let e = length_straight r p.ordered in
    record {
      some_phase = omega (arith, e, p.ordered);
      good = λ j lt.
          let same : (r.first + j) % num_phases ≡ r.first + j =
            omega (arith, e, lt, p.before, p.ordered) in
          rw same (p.good (r.first + j) (omega arith) (omega (arith, e, lt, p.ordered)));
    }

-- The range that begins with the last one and ends with the first one.
around-Circle :
    (ok : ℕ → Bool) (a z : Range)
    → Run ok num_phases a
    → Run ok num_phases z
    → a.first ≡ 0
    → z.last + 1 ≡ num_phases
    → a.last + 1 < z.first
    → Circle ok (record a { first = z.first })
around-Circle ok a z p q start end gap =
    let e = length_around (record a { first = z.first }) gap in
    record {
      some_phase = omega (arith, e, q.ordered, q.before, gap);
      good = λ j lt. elim (Bool-cases (ltb (z.first + j) num_phases)) [
        | inl f ↦
            let here = ltb→lt (z.first + j) num_phases f in
            let same : (z.first + j) % num_phases ≡ z.first + j = omega (arith, here) in
            rw same (q.good (z.first + j) (omega arith) (omega (arith, here, end)))
        | inr f ↦
            let beyond = ltb→le (z.first + j) num_phases f in
            let same : (z.first + j) % num_phases ≡ z.first + j - num_phases =
              omega (arith, beyond, e, lt, gap, q.ordered, q.before, p.before) in
            rw same (
              p.good (z.first + j - num_phases) (omega (arith, start))
                (omega (arith, beyond, e, lt, gap, q.ordered, q.before)))
      ];
    }

-- What the ranges are once both ends are one.
AllCircles : (ok : ℕ → Bool) → Scan → Type 0
AllCircles ok s = (0 < s.range_count) × ((r : ℕ) → r < s.range_count → Circle ok (s.ranges r))

merge-AllCircles :
    (ok : ℕ → Bool) (s : Scan)
    → Found ok s
    → s.index ≡ num_phases
    → 0 < s.range_count
    → AllCircles ok (merge s)
unfolding AllCircles merge
merge-AllCircles ok s p end some_range =
    let full : (r : ℕ) → r < s.range_count → Run ok num_phases (s.ranges r) =
      λ r lt. subst (λ n. Run ok n (s.ranges r)) end (p.runs r lt) in
    let last = s.range_count - 1 in
    elim (Bool-cases (ltb 1 s.range_count && (s.first_ok && s.previous_ok))) [
      | inl e ↦
          let many : 1 < s.range_count = ground (arith, e) in
          let begins = p.begins (omega (arith, end)) (ground (arith, e)) in
          let ends = p.continues (ground (arith, e)) in
          rw (e, merge)
            (
              omega (arith, many),
              λ r lt. elim (Bool-cases (0 == r)) [
                | inl f ↦ rw f (
                    around-Circle ok (s.ranges 0) (s.ranges last) (full 0 some_range)
                      (full last (omega (arith, many))) begins.1 (ends.1 ∙ end)
                      (p.gaps 0 last (omega (arith, many)) (omega (arith, many))))
                | inr f ↦ rw f (Run-Circle ok (s.ranges r) (full r (omega (arith, lt))))
              ],
            )
      | inr e ↦ rw (e, merge) (some_range, λ r lt. Run-Circle ok (s.ranges r) (full r lt))
    ]

-- The longest of the ranges is one of them.
longest_lem :
    (ranges : ℕ → Range) (n : ℕ)
    → (b : ℕ × ℕ) × (longest ranges (suc n) ≡ some b)
      × (b.0 < suc n)
      × (b.1 ≡ range_length (ranges b.0))
      × ((r : ℕ) → r < suc n → range_length (ranges r) ≤ b.1)
unfolding longest
longest_lem ranges zero =
    ((0, range_length (ranges 0)), refl, omega arith, refl, λ r lt. only r (omega (arith, lt)))
  where
    only : (r : ℕ) → r ≡ 0 → range_length (ranges r) ≤ range_length (ranges 0)
    only r e = rw e (omega arith)
longest_lem ranges (suc n) =
    let (b, e, inside, same, most) = longest_lem ranges n in
    let l = range_length (ranges (suc n)) in
    let step : longest ranges (suc (suc n)) ≡ (if ltb b.1 l then some (suc n, l) else some b) =
      ap
        (λ o. elim o [
          | none ↦ some (suc n, l)
          | some c ↦ if ltb c.1 l then some (suc n, l) else some c
        ])
        e in
    elim (Bool-cases (ltb b.1 l)) [
      | inl f ↦ (
        (suc n, l),
        step ∙ ap (λ t. if t then some (suc n, l) else some b) f,
        omega arith,
        refl,
        λ r lt.
            below (suc n) l r (λ r lt. omega (arith, most r lt, ltb→lt b.1 l f)) (omega arith) lt,
      )
      | inr f ↦ (
        b,
        step ∙ ap (λ t. if t then some (suc n, l) else some b) f,
        omega (arith, inside),
        same,
        λ r lt. below (suc n) b.1 r most (ltb→le b.1 l f) lt,
      )
    ]
  where
    below :
        (n l r : ℕ)
        → ((r : ℕ) → r < n → range_length (ranges r) ≤ l)
        → range_length (ranges n) ≤ l
        → r < suc n
        → range_length (ranges r) ≤ l
    below n l r before final lt = elim (Bool-cases (r == n)) [
      | inl e ↦ let same : r ≡ n = (==_iff r n).0 e in rw same final
      | inr e ↦ before r (omega (arith, lt, ==_ne r n e))
    ]

-- The phase that is chosen of circles of good ones.
pick_lem :
    (ok : ℕ → Bool) (s : Scan)
    → AllCircles ok s
    → (b : ℕ × ℕ) × (longest s.ranges s.range_count ≡ some b)
      × (ok (((s.ranges b.0).first + b.1 / 2) % num_phases) ≡ true)
unfolding AllCircles
pick_lem ok s p =
    let n = s.range_count - 1 in
    let count : s.range_count ≡ suc n = omega (arith, p.0) in
    let (b, e, inside, same, most) = longest_lem s.ranges n in
    let c = p.1 b.0 (omega (arith, inside, count)) in
    (b, ap (longest s.ranges) count ∙ e, c.good (b.1 / 2) (omega (arith, c.some_phase, same)))

zero-good : (ok : ℕ → Bool) (s : Scan) → AllCircles ok s → (s.ranges 0).first ≡ 0 → ok 0 ≡ true
unfolding AllCircles
zero-good ok s p e =
    let c = p.1 0 p.0 in
    let start : ((s.ranges 0).first + 0) % num_phases ≡ 0 = omega (arith, e) in
    ap ok (sym start) ∙ c.good 0 c.some_phase

choose_lem :
    (ok : ℕ → Bool) (s : Scan)
    → Found ok s
    → s.index ≡ num_phases
    → ((p : ℕ) × (choose s ≡ some p) × (p < num_phases) × (ok p ≡ true))
      ⊎ ((choose s ≡ none) × (ok 0 ≡ false))
unfolding choose
choose_lem ok s p end =
    let m = merge s in
    elim (Bool-cases (s.range_count == 0)) [
      | inl e ↦
          let no_range : s.range_count ≡ 0 = (==_iff s.range_count 0).0 e in
          inr (rw (e, choose) refl, p.missed (omega (arith, end)) no_range)
      | inr e ↦
          let all : AllCircles ok m =
            merge-AllCircles ok s p end (omega (arith, ==_ne s.range_count 0 e)) in
          elim (Bool-cases ((m.ranges 0).first == 0 && (m.ranges 0).last == num_phases - 1)) [
            | inl f ↦
                let start : (m.ranges 0).first ≡ 0 = ground (arith, f) in
                inl (0, rw (e, f, choose) refl, omega arith, zero-good ok m all start)
            | inr f ↦
                let (b, g, good) = pick_lem ok m all in
                inl (
                  ((m.ranges b.0).first + b.1 / 2) % num_phases,
                  rw (e, f, choose)
                      (ap
                        (λ o. elim o [
                          | none ↦ none
                          | some c ↦ some (((m.ranges c.0).first + c.1 / 2) % num_phases)
                        ])
                        g),
                  omega arith,
                  good,
                )
          ]
    ]

-- Either the tuning chooses a phase, which is good, or it chooses none, and then the first phase is
-- bad.
pub tune_lem :
    (ok : ℕ → Bool)
    → ((p : ℕ) × (tune ok ≡ some p) × (p < num_phases) × (ok p ≡ true))
      ⊎ ((tune ok ≡ none) × (ok 0 ≡ false))
unfolding tune
tune_lem ok =
    let (p, end) = scan-Found ok 360 start_scan (start_scan-Found ok) (omega arith) in
    choose_lem ok (scan ok 360 start_scan) p end

-- `Ranges`, an array of `NUM_PHASES / 2 + 1`, has room for all ranges that the loop finds.
pub ranges_fit : (ok : ℕ → Bool) → (scan ok 360 start_scan).range_count < num_phases / 2 + 1
ranges_fit ok =
    let (p, end) = scan-Found ok 360 start_scan (start_scan-Found ok) (omega arith) in
    omega (arith, p.room, end)
