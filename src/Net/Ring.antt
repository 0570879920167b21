-- ===== src/Net/Ring.antt =====
-- Distances round a ring, and walks along it that stop at an end.
use woa_rk.Base.{ℕ, suc, ◌+◌, ◌-◌, ◌≤◌, ◌<◌, ◌≡◌, ◌≢◌, leb, ltb, if◌then◌else◌, arith, ap}
use woa_rk.Net.Adapter.{succ_mod}

-- How far `b` lies ahead of `a` round a ring of `n`.
unfoldable pub dist : ℕ → ℕ → ℕ → ℕ
dist n a b = if leb a b then b - a else b + n - a

pub dist_self : (n a : ℕ) → dist n a a ≡ 0
unfolding dist
dist_self n a = ground arith

pub dist-lt : (n a b : ℕ) → a < n → b < n → dist n a b < n
unfolding dist
dist-lt n a b ha hb = ground arith

pub dist_zero : (n a b : ℕ) → a < n → b < n → dist n a b ≡ 0 → a ≡ b
unfolding dist
dist_zero n a b ha hb e = ground arith

pub dist_injective : (n a b b' : ℕ) → a < n → b < n → b' < n → dist n a b ≡ dist n a b' → b ≡ b'
unfolding dist
dist_injective n a b b' ha hb hb' e = ground arith

pub succ_mod-lt : (n a : ℕ) → a < n → succ_mod n a < n
succ_mod-lt n a h = ground arith

-- One step ahead brings every other place one nearer.
pub dist-succ_mod : (n a b : ℕ) → a < n → b < n → a ≢ b → dist n (succ_mod n a) b + 1 ≡ dist n a b
unfolding dist
dist-succ_mod n a b ha hb ne = ground arith

pub dist-suc-ne : (n a b k : ℕ) → dist n a b ≡ suc k → a ≢ b
dist-suc-ne n a b k h e =
    let same : dist n a b ≡ dist n b b = ap (λ t. dist n t b) e in
    omega (arith, same, dist_self n b)

pub dist_pos-ne : (n a b m : ℕ) → m + 1 ≤ dist n a b → a ≢ b
dist_pos-ne n a b m h e =
    let same : dist n a b ≡ dist n b b = ap (λ t. dist n t b) e in
    omega (arith, same, dist_self n b)

pub dist-succ_mod-suc :
    (n a b k : ℕ) → a < n → b < n → dist n a b ≡ suc k → dist n (succ_mod n a) b ≡ k
dist-succ_mod-suc n a b k ha hb h = omega (arith, dist-succ_mod n a b ha hb (dist-suc-ne n a b k h))

-- Behind the place that was left there is the whole ring.
pub dist-succ_mod_self : (n a : ℕ) → a < n → dist n (succ_mod n a) a + 1 ≡ n
unfolding dist
dist-succ_mod_self n a h = ground arith

-- One step of the far end.
pub dist_extend :
    (n a b : ℕ) → a < n → b < n → dist n a b + 1 < n → dist n a (succ_mod n b) ≡ dist n a b + 1
unfolding dist
dist_extend n a b ha hb h = ground arith

-- A place on the way splits the distance.
pub dist_split :
    (n a b c : ℕ)
    → a < n
    → b < n
    → c < n
    → dist n a b ≤ dist n a c
    → dist n a b + dist n b c ≡ dist n a c
unfolding dist
dist_split n a b c ha hb hc h = ground arith

pub dist_concat :
    (n a b c : ℕ)
    → a < n
    → b < n
    → c < n
    → dist n a b + dist n b c < n
    → dist n a c ≡ dist n a b + dist n b c
unfolding dist
dist_concat n a b c ha hb hc h = ground arith

-- What lies behind a place is reached by going round.
pub dist_around :
    (n a b c : ℕ)
    → a < n
    → b < n
    → c < n
    → dist n a c < dist n a b
    → dist n b c + dist n a b ≡ n + dist n a c
unfolding dist
dist_around n a b c ha hb hc h = ground arith

-- The place `k` steps ahead.
abbrev pub place : ℕ → ℕ → ℕ → ℕ
place n a k = if ltb (a + k) n then a + k else a + k - n

pub dist-place : (n a k : ℕ) → a < n → k < n → (place n a k < n) × (dist n a (place n a k) ≡ k)
unfolding dist
dist-place n a k ha hk = ground arith

-- `b` lies `m` steps ahead of `a` and not past `e`.
pub record IsWalk (n a e b m : ℕ) : Type 0 where
  pub inside : b < n
  pub steps : dist n a b ≡ m
  pub before_end : m ≤ dist n a e

pub IsWalk-none : (n a e : ℕ) → a < n → IsWalk n a e a 0
IsWalk-none n a e h = omega (arith, dist_self n a)

pub IsWalk-step :
    (n a e b m : ℕ) → a < n → e < n → a ≢ e → IsWalk n (succ_mod n a) e b m → IsWalk n a e b (m + 1)
IsWalk-step n a e b m ha he ne w = record {
  inside = w.inside;
  steps =
      let near = dist-succ_mod n a e ha he ne in
      let far = dist-lt n a e ha he in
      let back = dist-succ_mod_self n a ha in
      let other : a ≢ b = λ p. (omega (arith, near, far, back, w, ap_dist p)) in
      omega (arith, dist-succ_mod n a b ha w.inside other, w);
  before_end = omega (arith, dist-succ_mod n a e ha he ne, w);
}
  where
    ap_dist : a ≡ b → dist n (succ_mod n a) a ≡ dist n (succ_mod n a) b
    ap_dist p = ap (λ t. dist n (succ_mod n a) t) p

pub IsWalk-lt : {n a e b m : ℕ} → a < n → IsWalk n a e b m → m < n
IsWalk-lt {n} {a} {b = b} ha w = omega (arith, w, dist-lt n a b ha w.inside)
