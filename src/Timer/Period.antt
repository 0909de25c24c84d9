-- ===== src/Timer/Period.antt =====
-- When a timer fires.
use takt_os.Base.{
  ℕ, zero, suc, ◌+◌, ◌*◌, ◌%◌, ◌^◌, ◌≤◌, ◌<◌, ◌≡◌, refl, ap, ◌∙◌, Option, none, some, true, false,
  leb, ◌==◌, arith,
}
use takt_os.Timer.{Timer, Timers, tick, fire, store}

-- Callbacks that leave the timers alone, and count their runs.
abbrev pub counting : ℕ → Timers × ℕ → Timers × ℕ
counting c s = (s.0, s.1 + 1)

-- `n` takts of `delta_ms` for the timer at `p`.
pub takts : {W : Type 0} → (ℕ → Timers × W → Timers × W) → ℕ → ℕ → ℕ → Timers × W → Timers × W
takts run p delta_ms zero s = s
takts run p delta_ms (suc n) s = takts run p delta_ms n (tick run p delta_ms s)

-- A repeating timer at `p` that is active.
abbrev pub repeating : ℕ → ℕ → ℕ → ℕ → Timer
repeating handle interval_ms elapsed_ms c = record {
  handle = handle;
  interval_ms = interval_ms;
  elapsed_ms = elapsed_ms;
  active = true;
  repeats = true;
  callback = some c;
}

abbrev pub IsAt : ℕ → Timer → ℕ → Timers × ℕ → Type 0
IsAt p t runs s = ((s.0).heap p ≡ t) × (s.1 ≡ runs)

mul-le : (a b d : ℕ) → a ≤ b → a * d ≤ b * d
mul-le a b d h = grind arith

module _ (p delta_ms interval_ms handle c : ℕ) where
  tick-early :
      (elapsed_ms runs : ℕ) (s : Timers × ℕ)
      → IsAt p (repeating handle interval_ms elapsed_ms c) runs s
      → elapsed_ms + delta_ms < interval_ms
      → interval_ms < 2 ^ 32
      → IsAt p
          (repeating handle interval_ms (elapsed_ms + delta_ms) c)
          runs
          (tick counting p delta_ms s)
  unfolding tick
  tick-early elapsed_ms runs s (e, n) h k =
      let pp : (p == p) ≡ true = ground arith in
      let sum : (elapsed_ms + delta_ms) % 2 ^ 32 ≡ elapsed_ms + delta_ms = omega arith in
      let low : leb interval_ms (elapsed_ms + delta_ms) ≡ false = ground arith in
      rw (e, sum, low, pp) (refl, n)

  tick-due :
      (elapsed_ms runs : ℕ) (s : Timers × ℕ)
      → IsAt p (repeating handle interval_ms elapsed_ms c) runs s
      → interval_ms ≤ elapsed_ms + delta_ms
      → elapsed_ms + delta_ms < 2 ^ 32
      → IsAt p (repeating handle interval_ms 0 c) (runs + 1) (tick counting p delta_ms s)
  unfolding tick
  tick-due elapsed_ms runs s (e, n) h k =
      let pp : (p == p) ≡ true = ground arith in
      let sum : (elapsed_ms + delta_ms) % 2 ^ 32 ≡ elapsed_ms + delta_ms = omega arith in
      let high : leb interval_ms (elapsed_ms + delta_ms) ≡ true = ground arith in
      rw (e, sum, high, pp) (rw pp (refl, ap (λ x. x + 1) n))

takts-add :
    {W : Type 0} (run : ℕ → Timers × W → Timers × W) (p delta_ms a b : ℕ) (s : Timers × W)
    → takts run p delta_ms (a + b) s ≡ takts run p delta_ms b (takts run p delta_ms a s)
unfolding takts
takts-add run p delta_ms zero b s =
    let z : 0 + b ≡ b = omega arith in ap (λ n. takts run p delta_ms n s) z
takts-add run p delta_ms (suc a) b s =
    let z : suc a + b ≡ suc (a + b) = omega arith in
    ap (λ n. takts run p delta_ms n s) z ∙ takts-add run p delta_ms a b (tick run p delta_ms s)

module _ (p delta_ms interval_ms handle c k : ℕ) (above : k * delta_ms < interval_ms)
    (below : interval_ms ≤ (k + 1) * delta_ms) (small : interval_ms + delta_ms < 2 ^ 32) where
  takts-within :
      (j i runs : ℕ) (s : Timers × ℕ)
      → IsAt p (repeating handle interval_ms (i * delta_ms) c) runs s
      → i + j ≤ k
      → IsAt p
          (repeating handle interval_ms ((i + j) * delta_ms) c)
          runs
          (takts counting p delta_ms j s)
  unfolding takts
  takts-within zero i runs s at h = let z : i + 0 ≡ i = omega arith in rw z at
  takts-within (suc j) i runs s at h =
      let most = mul-le (i + 1) k delta_ms (omega arith) in
      let next =
        tick-early p delta_ms interval_ms handle c (i * delta_ms) runs s at (omega arith)
          (omega arith) in
      let step : i * delta_ms + delta_ms ≡ (i + 1) * delta_ms = omega arith in
      let sum : i + suc j ≡ i + 1 + j = omega arith in
      rw sum
        (takts-within j (i + 1) runs (tick counting p delta_ms s) (rw step at next) (omega arith))

  period :
      (runs : ℕ) (s : Timers × ℕ)
      → IsAt p (repeating handle interval_ms 0 c) runs s
      → IsAt p (repeating handle interval_ms 0 c) (runs + 1) (takts counting p delta_ms (k + 1) s)
  unfolding takts
  period runs s at =
      let t = takts counting p delta_ms k s in
      let start : 0 * delta_ms ≡ 0 = omega arith in
      let none_yet : 0 + k ≡ k = omega arith in
      let late : IsAt p (repeating handle interval_ms (k * delta_ms) c) runs t =
        rw none_yet at (takts-within k 0 runs s (rw start at) (omega arith)) in
      rw (takts-add counting p delta_ms k 1 s) (
        tick-due p delta_ms interval_ms handle c (k * delta_ms) runs t late (omega arith)
          (omega arith))

  -- With callbacks that leave the timers alone, and an interval that is too short for the
  -- elapsed time to wrap around: a repeating timer whose interval takes `k + 1` takts to
  -- pass fires exactly at each `k + 1`-st takt. `m * (k + 1) + j` takts after a start, with
  -- `j` at most `k`, its callback has run `m` times more, and `j` takts have passed since.
  pub takts-periodic :
      (m j runs : ℕ) (s : Timers × ℕ)
      → IsAt p (repeating handle interval_ms 0 c) runs s
      → j ≤ k
      → IsAt p
          (repeating handle interval_ms (j * delta_ms) c)
          (runs + m)
          (takts counting p delta_ms (m * (k + 1) + j) s)
  takts-periodic zero j runs s at h =
      let z : runs + 0 ≡ runs = omega arith in
      let y : 0 * (k + 1) + j ≡ j = omega arith in
      let start : 0 * delta_ms ≡ 0 = omega arith in
      let w : 0 + j ≡ j = omega arith in
      rw (z, y) (rw w at (takts-within j 0 runs s (rw start at) (omega arith)))
  takts-periodic (suc m) j runs s at h =
      let split : suc m * (k + 1) + j ≡ (k + 1) + (m * (k + 1) + j) = omega arith in
      let total : runs + suc m ≡ runs + 1 + m = omega arith in
      rw (split, takts-add counting p delta_ms (k + 1) (m * (k + 1) + j) s, total)
        (takts-periodic m j (runs + 1) (takts counting p delta_ms (k + 1) s) (period runs s at) h)

fire-repeats :
    {W : Type 0} (run : ℕ → Timers × W → Timers × W) (p : ℕ) (callback : Option ℕ) (s : Timers × W)
    → ((c : ℕ) (t : Timers × W) → ((run c t).0.heap p).repeats ≡ (t.0.heap p).repeats)
    → ((fire run callback s).0.heap p).repeats ≡ (s.0.heap p).repeats
fire-repeats run p none s keeps = refl
fire-repeats run p (some c) s keeps = keeps c s

-- A one-shot timer whose interval has passed is inactive after the tick, whatever its callback
-- does with it short of making it repeat: a callback that starts its own timer again does so
-- in vain.
pub tick-one_shot :
    {W : Type 0} (run : ℕ → Timers × W → Timers × W) (p delta_ms : ℕ) (s : Timers × W)
    → ((c : ℕ) (t : Timers × W) → ((run c t).0.heap p).repeats ≡ (t.0.heap p).repeats)
    → (s.0.heap p).active ≡ true
    → (s.0.heap p).repeats ≡ false
    → (s.0.heap p).interval_ms ≤ ((s.0.heap p).elapsed_ms + delta_ms) % 2 ^ 32
    → ((tick run p delta_ms s).0.heap p).active ≡ false
unfolding tick
tick-one_shot {W} run p delta_ms s keeps on once due =
    let t = (s.0).heap p in
    let e = (t.elapsed_ms + delta_ms) % 2 ^ 32 in
    let high : leb t.interval_ms e ≡ true = ground arith in
    let pp : (p == p) ≡ true = ground arith in
    let s1 : Timers × W = (store s.0 p (record t { elapsed_ms = e }), s.1) in
    let same : ((fire run t.callback s1).0.heap p).repeats ≡ false =
      fire-repeats run p t.callback s1 keeps ∙ rw pp once in
    rw (high, same, on, pp) refl
