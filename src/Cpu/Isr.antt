-- ===== src/Cpu/Isr.antt =====
-- src/kernel/isr/isr.c: the exception and interrupt handlers. What they print is in the children; `panic`
-- does not return. An `int` is its 32-bit pattern.
pub mod Laws
pub mod Names
pub mod Report
use twos.Base.{
  ℕ, zero, suc, ◌+◌, ◌^◌, ◌%◌, ◌==◌, ◌&&◌, ◌||◌, not, ltb, Bool, true, false, if◌then◌else◌, Option,
  none, some, List, [], ◌∷◌, ◌++◌, u32, uint32_max, bit_and, update,
}

-- `exceptions_x86` of include/kernel/isr/isr_exceptions.h, those the handlers name.
abbrev pub isr_invalid_opcode : ℕ
isr_invalid_opcode = 6

abbrev pub isr_general_protection_fault : ℕ
isr_general_protection_fault = 13

abbrev pub isr_page_fault : ℕ
isr_page_fault = 14

-- `last_num`, `num_pfs` and `num_gpfs`.
pub record Faults : Type 0 where
  pub last_num : ℕ
  pub num_pfs : ℕ
  pub num_gpfs : ℕ

abbrev pub faults_at_boot : Faults
faults_at_boot = record { last_num = uint32_max; num_pfs = 0; num_gpfs = 0 }

-- A handler returns, or the kernel has panicked.
pub data Handled : Type 0 where
  returns : Faults → Handled
  panic : Handled

-- `num` is an int and the number of the interrupt a 64-bit word.
unfoldable pub handle_error_generic : ℕ → Bool → Faults → Handled
handle_error_generic int_no recover s =
    let num = u32 int_no in
    if (num == s.last_num) || not recover
    then panic
    else returns record { last_num = num; num_pfs = s.num_pfs; num_gpfs = s.num_gpfs }

unfoldable pub handle_pagefault : Faults → Handled
handle_pagefault s =
    if ltb 3 (s.num_pfs)
    then panic
    else returns record { last_num = s.last_num; num_pfs = s.num_pfs + 1; num_gpfs = s.num_gpfs }

unfoldable pub handle_gpf : Faults → Handled
handle_gpf s =
    let num_gpfs = s.num_gpfs + 1 in
    if ltb 1 num_gpfs
    then panic
    else returns record { last_num = s.last_num; num_pfs = s.num_pfs; num_gpfs = num_gpfs }

unfoldable pub isr_handler : ℕ → Faults → Handled
isr_handler int_no s =
    let recoverable = not (int_no == isr_invalid_opcode) in
    if int_no == isr_page_fault
    then handle_pagefault s
    else if int_no == isr_general_protection_fault
    then handle_gpf s
    else handle_error_generic int_no recoverable s

-- What an interrupt makes the kernel do: call the handler at an address, or write a register of
-- the local APIC.
pub data Action : Type 0 where
  call : ℕ → Action
  lapic_write : ℕ → ℕ → Action

-- `lapic_sendEOI` of include/kernel/apic/apic.h.
abbrev pub lapic_send_eoi : Action
lapic_send_eoi = lapic_write 0xb0 0

-- The test is on the low byte of the number, the call on all of it: past the table's end it is
-- undefined, `none`.
unfoldable pub irq_handler : ℕ → (ℕ → ℕ) → Option (List Action)
irq_handler int_no interupt_handlers =
    if interupt_handlers (int_no % 256) == 0
    then some (lapic_send_eoi ∷ [])
    else if ltb int_no 256
    then some (call (interupt_handlers int_no) ∷ lapic_send_eoi ∷ [])
    else none

unfoldable pub register_interupt_handler : ℕ → ℕ → (ℕ → ℕ) → ℕ → ℕ
register_interupt_handler n handler_fn interupt_handlers = update interupt_handlers n handler_fn
