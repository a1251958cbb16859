-- ===== src/Device/Hpet/Sleep.antt =====
-- `usleep` against a counter that runs.
use twos.Base.{
  ◌-◌, ◌⊎◌, subst, ℕ, zero, suc, ◌+◌, ◌*◌, ◌%◌, ◌^◌, ◌≤◌, ◌<◌, ◌≡◌, ◌∙◌, ap, refl, inl, inr,
  Bool-cases, false, ltb, some, u64, bit_or, bit_or-mod_two, arith,
}
use native.Mathlib.Nat.{lt_irrefl, mul-le-mul_left, mul-le-mul_right}
use twos.Device.Hpet.{
  Registers, Hpet, main_counter_offset, config_offset, femtoseconds_per_microsecond,
  hpet_timer_reset, hpet_timer_start, hpet_timer_poll_time, wait_until, usleep,
}

-- What the timer's manual says of its registers, for a main counter of 64 bits: while it is halted, the
-- counter can be written and stands still, and the enable bit lets it run; while it runs, a read gives
-- its value, and it only goes up. How fast it goes up is the machine's: by at most `step` ticks from one
-- access to the next, and by at least one within any `patience` + 1 reads, as `idle` counts them down.
-- Of a write to the counter while it runs nothing is said.
pub record Counts {S : Type 0} (registers : Registers S) (hpet : Hpet) (step patience : ℕ)
    : Type 1 where
  pub ticks : S → ℕ
  pub Halted : S → Type 0
  pub Runs : S → Type 0
  pub idle : S → ℕ
  pub idle-le : (s : S) → idle s ≤ patience
  pub reset :
      (s : S)
      → Halted s
      → let s' = registers.write64 (hpet.tbl + main_counter_offset) 0 s in
        Halted s' × (ticks s' ≡ 0)
  pub config :
      (s : S)
      → Halted s
      → let s' = (registers.read64 (hpet.tbl + config_offset) s).1 in
        Halted s' × (ticks s' ≡ ticks s)
  pub start :
      (v : ℕ) (s : S)
      → v % 2 ≡ 1
      → Halted s
      → let s' = registers.write64 (hpet.tbl + config_offset) v s in
        Runs s' × (ticks s' ≤ ticks s + step)
  pub poll :
      (s : S)
      → Runs s
      → let counter = registers.read64 (hpet.tbl + main_counter_offset) s in
        (counter.0 ≡ u64 (ticks s))
        × Runs (counter.1)
        × (ticks s ≤ ticks (counter.1))
        × (ticks (counter.1) ≤ ticks s + step)
        × ((ticks s < ticks (counter.1)) ⊎ (idle (counter.1) < idle s))

-- One tick less to wait for needs a round of patience less.
rounds-pred : (n p : ℕ) → 0 < n → (n - 1) * (p + 1) + (p + 1) ≡ n * (p + 1)
rounds-pred zero p h = elim h [ ]
rounds-pred (suc n) p h = let e : suc n - 1 ≡ n = omega arith in rw e (omega arith)

-- Where the time is not over, a tick brings its end closer.
tick_less :
    (t t' n f time : ℕ)
    → t * f < time
    → time ≤ (t + n) * f
    → (t + 1) * f ≤ t' * f
    → (0 < n) × (time ≤ (t' + (n - 1)) * f)
tick_less t t' zero f time before enough tick =
    let none : t + zero ≡ t = omega arith in
    let over : time ≤ t * f = subst (λ k. time ≤ k * f) none enough in
    elim (lt_irrefl 0 (omega (arith, before, over))) [ ]
tick_less t t' (suc n) f time before enough tick =
    let e : suc n - 1 ≡ n = omega arith in (omega arith, rw e (omega (arith, enough, tick)))

module _ {S : Type 0} (registers : Registers S) (hpet : Hpet) (step patience : ℕ)
    (c : Counts registers hpet step patience) where
  -- A look at the time that does not wrap, and how far it goes on meanwhile.
  poll_time_lem :
      (s : S)
      → c.Runs s
      → 0 < hpet.f_per_tick
      → c.ticks s * hpet.f_per_tick < 2 ^ 64
      → let now = hpet_timer_poll_time registers hpet s in
        (now.0 ≡ c.ticks s * hpet.f_per_tick)
        × c.Runs (now.1)
        × (c.ticks s * hpet.f_per_tick ≤ c.ticks (now.1) * hpet.f_per_tick)
        × (c.ticks (now.1) * hpet.f_per_tick ≤ (c.ticks s + step) * hpet.f_per_tick)
        × (((c.ticks s + 1) * hpet.f_per_tick ≤ c.ticks (now.1) * hpet.f_per_tick)
            ⊎ (c.idle (now.1) < c.idle s))
  unfolding hpet_timer_poll_time
  poll_time_lem s runs pos fits =
      let f = hpet.f_per_tick in
      let counter = registers.read64 (hpet.tbl + main_counter_offset) s in
      let (value, runs₁, later, soon, goes_on) = c.poll s runs in
      let scaled : c.ticks s ≤ c.ticks s * f = omega (arith, mul-le-mul_left (c.ticks s) pos) in
      let exact : counter.0 ≡ c.ticks s = omega (arith, value, scaled, fits) in
      let now_is : u64 (counter.0 * f) ≡ c.ticks s * f =
        ap (λ t. u64 (t * f)) exact ∙ omega (arith, fits) in
      let tick : ((c.ticks s + 1) * f ≤ c.ticks (counter.1) * f) ⊎ (c.idle (counter.1) < c.idle s) =
        elim goes_on [ inl l ↦ inl (omega (arith, mul-le-mul_right f l)) | inr l ↦ inr l ] in
      (now_is, runs₁, mul-le-mul_right f later, mul-le-mul_right f soon, tick)

  -- The loop ends once the time is over, and at most a step later.
  wait_until_lem :
      (fuel n time : ℕ) (s : S)
      → c.Runs s
      → 0 < hpet.f_per_tick
      → time + step * hpet.f_per_tick < 2 ^ 64
      → c.ticks s * hpet.f_per_tick ≤ time + step * hpet.f_per_tick
      → time ≤ (c.ticks s + n) * hpet.f_per_tick
      → n * (patience + 1) + c.idle s ≤ fuel
      → (s' : S) × (wait_until registers (suc fuel) hpet time s ≡ some s')
        × (time ≤ c.ticks s' * hpet.f_per_tick)
        × (c.ticks s' * hpet.f_per_tick ≤ time + 2 * step * hpet.f_per_tick)
  unfolding wait_until
  wait_until_lem zero n time s runs pos fits early enough fuelled =
      let now = hpet_timer_poll_time registers hpet s in
      let (value, runs₁, low, high, later) =
        poll_time_lem s runs pos (omega (arith, early, fits)) in
      let none : n ≡ 0 = omega (arith, fuelled) in
      let reached : time ≤ c.ticks s * hpet.f_per_tick =
        subst (λ k. time ≤ k * hpet.f_per_tick) (omega (arith, none)) enough in
      let over : ltb (now.0) time ≡ false = ground (arith, value, reached) in
      (now.1, rw over refl, omega (arith, reached, low), omega (arith, early, high))
  wait_until_lem (suc fuel) n time s runs pos fits early enough fuelled =
      let f = hpet.f_per_tick in
      let now = hpet_timer_poll_time registers hpet s in
      let (value, runs₁, low, high, later) =
        poll_time_lem s runs pos (omega (arith, early, fits)) in
      elim (Bool-cases (ltb (now.0) time)) [
        | inl e ↦
            let before : c.ticks s * f < time = ground (arith, e, value) in
            let near : c.ticks (now.1) * f ≤ time + step * f = omega (arith, before, high) in
            let rest : (s' : S) × (wait_until registers (suc fuel) hpet time (now.1) ≡ some s')
                × (time ≤ c.ticks s' * f)
                × (c.ticks s' * f ≤ time + 2 * step * f) =
              elim later [
                | inl tick ↦
                    let (more, sooner) =
                      tick_less (c.ticks s) (c.ticks (now.1)) n f time before enough tick in
                    wait_until_lem fuel (n - 1) time (now.1) runs₁ pos fits near sooner
                      (omega (arith, fuelled, rounds-pred n patience more, c.idle-le (now.1)))
                | inr less ↦
                    wait_until_lem fuel n time (now.1) runs₁ pos fits near
                      (omega (arith, enough, low)) (omega (arith, fuelled, less))
              ] in
            (rest.0, rw e (rest.1), rest.2, rest.3)
        | inr e ↦ (now.1, rw e refl, ground (arith, e, value, low), ground (arith, early, high))
      ]

  -- On a timer as its manual has it, with a counter of 64 bits that is halted, as `hpet_init` leaves it,
  -- a period above 0 and a time of at most `n` ticks that does not wrap, on a machine on which the counter
  -- goes up by at most `step` ticks from access to access and by a tick within `patience` + 1 reads:
  -- `usleep` returns within `patience` + 1 looks for every one of the `n` ticks and `patience` + 1 more,
  -- not before the time is over, and at most 2 * `step` ticks after it.
  pub usleep_lem :
      (fuel n us : ℕ) (s : S)
      → c.Halted s
      → 0 < hpet.f_per_tick
      → femtoseconds_per_microsecond * us + step * hpet.f_per_tick < 2 ^ 64
      → femtoseconds_per_microsecond * us ≤ n * hpet.f_per_tick
      → n * (patience + 1) + patience ≤ fuel
      → (s' : S) × (usleep registers (suc fuel) hpet us s ≡ some s')
        × (femtoseconds_per_microsecond * us ≤ c.ticks s' * hpet.f_per_tick)
        × (c.ticks s' * hpet.f_per_tick
            ≤ femtoseconds_per_microsecond * us + 2 * step * hpet.f_per_tick)
  unfolding usleep hpet_timer_reset hpet_timer_start
  usleep_lem fuel n us s halted pos fits enough fuelled =
      let f = hpet.f_per_tick in
      let time = femtoseconds_per_microsecond * us in
      let s₁ = registers.write64 (hpet.tbl + main_counter_offset) 0 s in
      let config = registers.read64 (hpet.tbl + config_offset) s₁ in
      let s₂ = registers.write64 (hpet.tbl + config_offset) (bit_or (config.0) 1) (config.1) in
      let (halted₁, zeroed) = c.reset s halted in
      let (halted₂, same) = c.config s₁ halted₁ in
      let (runs, started) =
        c.start (bit_or (config.0) 1) (config.1) (omega (arith, bit_or-mod_two (config.0) 1))
          halted₂ in
      let few : c.ticks s₂ ≤ step = omega (arith, started, same, zeroed) in
      let early : c.ticks s₂ * f ≤ time + step * f = omega (arith, mul-le-mul_right f few) in
      let exact : u64 time ≡ time = omega (arith, fits) in
      rw exact (
        wait_until_lem fuel n time s₂ runs pos fits early (omega (arith, enough))
          (omega (arith, fuelled, c.idle-le s₂)))
