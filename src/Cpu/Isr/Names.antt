-- ===== src/Cpu/Isr/Names.antt =====
-- The exceptions of include/kernel/isr/isr_exceptions.h and the names that `handle_error_generic` of
-- src/kernel/isr/isr.c prints for them.
use twos.Base.{
  ℕ, ◌<◌, ◌≡◌, ◌⊎◌, ◌↔◌, refl, inl, inr, Option, none, some, List, [], ◌∷◌, get_elem?, u32, ltb,
  if◌then◌else◌, arith,
}

-- `exceptions_x86`, without the prefix `ISR_`.
pub data Exception : Type 0 where
  division_error debug non_maskable_interrupt breakpoint overflow bound_range_exceeded : Exception
  invalid_opcode device_not_available double_fault co_processor_legacy invalid_tss : Exception
  segment_not_present stack_segment_fault general_protection_fault page_fault : Exception
  x87_floating_point alignment_check machine_check simd_floating_point : Exception
  virtualization_exception control_protection_exception hypervisor_injection : Exception
  vmm_comm_exception security_exception : Exception

-- The values of the enumeration.
unfoldable pub number : Exception → ℕ
number division_error = 0
number debug = 1
number non_maskable_interrupt = 2
number breakpoint = 3
number overflow = 4
number bound_range_exceeded = 5
number invalid_opcode = 6
number device_not_available = 7
number double_fault = 8
number co_processor_legacy = 9
number invalid_tss = 10
number segment_not_present = 11
number stack_segment_fault = 12
number general_protection_fault = 13
number page_fault = 14
number x87_floating_point = 16
number alignment_check = 17
number machine_check = 18
number simd_floating_point = 19
number virtualization_exception = 20
number control_protection_exception = 21
number hypervisor_injection = 28
number vmm_comm_exception = 29
number security_exception = 30

-- A text of the table: an exception's enumerator, or "ISR_Reserved".
pub data Name : Type 0 where
  of : Exception → Name
  reserved : Name

abbrev pub exception_names : List Name
exception_names =
    of division_error
    ∷ of debug
    ∷ of non_maskable_interrupt
    ∷ of breakpoint
    ∷ of overflow
    ∷ of bound_range_exceeded
    ∷ of invalid_opcode
    ∷ of device_not_available
    ∷ of double_fault
    ∷ of co_processor_legacy
    ∷ of invalid_tss
    ∷ of segment_not_present
    ∷ of stack_segment_fault
    ∷ of general_protection_fault
    ∷ of page_fault
    ∷ reserved
    ∷ reserved
    ∷ of x87_floating_point
    ∷ of alignment_check
    ∷ of machine_check
    ∷ of simd_floating_point
    ∷ of virtualization_exception
    ∷ of control_protection_exception
    ∷ reserved
    ∷ reserved
    ∷ reserved
    ∷ reserved
    ∷ reserved
    ∷ of hypervisor_injection
    ∷ of vmm_comm_exception
    ∷ of security_exception
    ∷ []

-- What is printed for a number: a text of the table, "ISR_Unknown", or what lies behind the table.
pub data Printed : Type 0 where
  text : Name → Printed
  unknown beyond : Printed

unfoldable pub entry_text : Option Name → Printed
entry_text none = beyond
entry_text (some name) = text name

-- The test of `handle_error_generic`, with `num` an int.
unfoldable pub printed_name : ℕ → Printed
printed_name int_no =
    let num = u32 int_no in
    if ltb num 32 then entry_text (get_elem? exception_names num) else unknown

-- The text that `handle_error_generic` prints for an exception is its own name exactly where its number
-- is below 16 or above 21: the table has a second reserved entry at 16, and the names behind it stand
-- one place too high.
pub printed_name_iff :
    (e : Exception) → (printed_name (number e) ≡ text (of e)) ↔ ((number e < 16) ⊎ (21 < number e))
unfolding number printed_name entry_text
printed_name_iff division_error = ((λ h. inl (omega arith)), (λ h. refl))
printed_name_iff debug = ((λ h. inl (omega arith)), (λ h. refl))
printed_name_iff non_maskable_interrupt = ((λ h. inl (omega arith)), (λ h. refl))
printed_name_iff breakpoint = ((λ h. inl (omega arith)), (λ h. refl))
printed_name_iff overflow = ((λ h. inl (omega arith)), (λ h. refl))
printed_name_iff bound_range_exceeded = ((λ h. inl (omega arith)), (λ h. refl))
printed_name_iff invalid_opcode = ((λ h. inl (omega arith)), (λ h. refl))
printed_name_iff device_not_available = ((λ h. inl (omega arith)), (λ h. refl))
printed_name_iff double_fault = ((λ h. inl (omega arith)), (λ h. refl))
printed_name_iff co_processor_legacy = ((λ h. inl (omega arith)), (λ h. refl))
printed_name_iff invalid_tss = ((λ h. inl (omega arith)), (λ h. refl))
printed_name_iff segment_not_present = ((λ h. inl (omega arith)), (λ h. refl))
printed_name_iff stack_segment_fault = ((λ h. inl (omega arith)), (λ h. refl))
printed_name_iff general_protection_fault = ((λ h. inl (omega arith)), (λ h. refl))
printed_name_iff page_fault = ((λ h. inl (omega arith)), (λ h. refl))
printed_name_iff x87_floating_point = ((λ h. absurd (cc h)), (λ h. absurd (omega (arith, h))))
printed_name_iff alignment_check = ((λ h. absurd (cc h)), (λ h. absurd (omega (arith, h))))
printed_name_iff machine_check = ((λ h. absurd (cc h)), (λ h. absurd (omega (arith, h))))
printed_name_iff simd_floating_point = ((λ h. absurd (cc h)), (λ h. absurd (omega (arith, h))))
printed_name_iff virtualization_exception = ((λ h. absurd (cc h)), (λ h. absurd (omega (arith, h))))
printed_name_iff control_protection_exception =
    ((λ h. absurd (cc h)), (λ h. absurd (omega (arith, h))))
printed_name_iff hypervisor_injection = ((λ h. inr (omega arith)), (λ h. refl))
printed_name_iff vmm_comm_exception = ((λ h. inr (omega arith)), (λ h. refl))
printed_name_iff security_exception = ((λ h. inr (omega arith)), (λ h. refl))
