-- ===== src/Tests/Timer.antt =====
-- The timer and the framebuffer on concrete devices.
use twos.Base.{◌%◌, inl, ◌==◌, if◌then◌else◌, u64, ℕ, ◌+◌, ◌*◌, ◌/◌, ◌≤◌, ◌≡◌, refl, some, arith}
use twos.Device.Hpet.{Registers, Hpet, femtoseconds_per_microsecond, main_counter_offset, usleep}
use twos.Device.Hpet.Sleep.{Counts, usleep_lem}
use twos.Device.Framebuffer.{framebuffer_display_test_pattern}
use twos.Device.Framebuffer.Fill.{FitsIn, ShowsHues, framebuffer_display_test_pattern_lem}

-- A counter that a second word lets run: while it runs, every access moves it on by one tick, and while
-- it is halted it can be written.
abbrev ticking : Registers (ℕ × ℕ)
ticking = record {
  read64 = λ a s.
      if a == 0xfed00000 + main_counter_offset then (u64 (s.0), (s.0 + s.1, s.1)) else (s.1, s);
  write64 = λ a v s.
      if a == 0xfed00000 + main_counter_offset
      then (if s.1 == 0 then (v, s.1) else s)
      else (s.0, v % 2);
}

-- Its tick takes 10 ns.
abbrev some_hpet : Hpet
some_hpet = record { tbl = 0xfed00000; f_per_tick = 10000000; tick_per_us = 100 }

abbrev ticking-Counts : Counts ticking some_hpet 1 0
ticking-Counts = record {
  ticks = λ s. s.0;
  Halted = λ s. s.1 ≡ 0;
  Runs = λ s. s.1 ≡ 1;
  idle = λ s. 0;
  idle-le = λ s. omega arith;
  reset = λ s h. rw h (refl, refl);
  config = λ s h. (h, refl);
  start = λ v s odd h. (odd, omega arith);
  poll = λ s runs. (refl, runs, omega arith, omega (arith, runs), inl (omega (arith, runs)));
}

usleep_example :
    (s' : ℕ × ℕ) × (usleep ticking 301 some_hpet 3 (7, 0) ≡ some s')
    × (femtoseconds_per_microsecond * 3 ≤ s'.0 * 10000000)
    × (s'.0 * 10000000 ≤ femtoseconds_per_microsecond * 3 + 2 * 1 * 10000000)
usleep_example =
    usleep_lem ticking some_hpet 1 0 ticking-Counts 300 300 3 (7, 0) refl (omega arith)
      (omega arith) (omega arith) (omega arith)

small_picture : FitsIn 3 2 16
small_picture = record { row = omega arith; size = omega arith }

test_pattern_example :
    ShowsHues 4096 16
      (λ x. x * 256 / 3)
      3
      2
      (λ b. 0)
      (framebuffer_display_test_pattern 4096 3 2 16 (λ b. 0))
test_pattern_example =
    framebuffer_display_test_pattern_lem 4096 16 3 2 (λ b. 0) small_picture (omega arith)
