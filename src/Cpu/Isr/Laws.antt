-- ===== src/Cpu/Isr/Laws.antt =====
-- How often the exception handlers return, and that each interrupt is acknowledged.
use twos.Base.{ℕ, ◌+◌, ◌<◌, ◌≤◌, ◌≡◌, ◌≢◌, ◌==◌, if◌then◌else◌, refl, some, List, [], ◌∷◌, arith}
use twos.Cpu.Isr.{
  Faults, faults_at_boot, returns, panic, isr_handler, handle_error_generic, handle_pagefault,
  handle_gpf, call, lapic_send_eoi, irq_handler, register_interupt_handler, isr_page_fault,
  isr_general_protection_fault,
}

-- The states that handled exceptions lead to, from the boot on, with the numbers of the exceptions that
-- have been handled on the way, the last one first.
pub data Reachable : List ℕ → Faults → Type 0 where
  boot : Reachable [] faults_at_boot
  handled :
      (done : List ℕ) (s s' : Faults) (int_no : ℕ)
      → Reachable done s
      → isr_handler int_no s ≡ returns s'
      → Reachable (int_no ∷ done) s'

-- How often a number stands in a list.
unfoldable pub count : ℕ → List ℕ → ℕ
count n [] = 0
count n (m ∷ ms) = if m == n then count n ms + 1 else count n ms

-- The counters count what has been handled, and stay in their bounds.
Reachable-count :
    {done : List ℕ} {s : Faults}
    → Reachable done s
    → (count 14 done ≡ s.num_pfs)
      × (count 13 done ≡ s.num_gpfs)
      × (s.num_pfs ≤ 4)
      × (s.num_gpfs ≤ 1)
unfolding isr_handler handle_pagefault handle_gpf handle_error_generic count
Reachable-count boot = (refl, refl, omega arith, omega arith)
Reachable-count (handled done s s' int_no r e) = let before = Reachable-count r in ground arith

-- However many exceptions are handled one after the other, of whatever numbers, without a panic: at most
-- four of them are page faults, number 14, and at most one is a protection fault, number 13.
pub Reachable-bounded :
    {done : List ℕ} {s : Faults} → Reachable done s → (count 14 done ≤ 4) × (count 13 done ≤ 1)
Reachable-bounded r =
    let (pfs, gpfs, few_pfs, few_gpfs) = Reachable-count r in
    (omega (arith, pfs, few_pfs), omega (arith, gpfs, few_gpfs))

-- An exception other than a page fault or a protection fault, raised again with no other exception
-- between, panics.
pub isr_handler-twice :
    (int_no : ℕ) (s s' : Faults)
    → int_no ≢ isr_page_fault
    → int_no ≢ isr_general_protection_fault
    → isr_handler int_no s ≡ returns s'
    → isr_handler int_no s' ≡ panic
unfolding isr_handler handle_error_generic
isr_handler-twice int_no s s' hp hg e = ground arith

-- An interrupt below 256 calls the handler registered for it, once, and none where none is
-- registered, and then acknowledges the interrupt to the local APIC.
pub irq_handler_lem :
    (int_no n fn : ℕ) (handlers : ℕ → ℕ)
    → int_no < 256
    → 0 < fn
    → (irq_handler int_no (register_interupt_handler int_no fn handlers)
        ≡ some (call fn ∷ lapic_send_eoi ∷ []))
      × (handlers int_no ≡ 0
          → n ≢ int_no
          → irq_handler int_no (register_interupt_handler n fn handlers)
            ≡ some (lapic_send_eoi ∷ []))
unfolding irq_handler register_interupt_handler
irq_handler_lem int_no n fn handlers h hf = (ground arith, λ a b. ground arith)
