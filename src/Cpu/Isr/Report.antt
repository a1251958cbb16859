-- ===== src/Cpu/Isr/Report.antt =====
-- What the exception handlers of src/kernel/isr/isr.c print: the registers, and what an error code
-- says of a page fault.
use twos.Base.{
  ℕ, ◌^◌, ◌≡◌, ◌≢◌, refl, ap, ◌==◌, ltb, not, if◌then◌else◌, Bool, true, false, Bool-cases, inl,
  inr, List, [], ◌∷◌, ◌++◌, bit_and, bit_and-two_pow_iff, test_bit, test_bit-lt_two, arith,
}
use native.Mathlib.Decide.{ℕ_discrete}
use twos.Cpu.Log.{Line, line}

-- `registers_t` of include/kernel/isr/isr.h.
pub record IsrRegisters : Type 0 where
  pub ds : ℕ
  pub r15 : ℕ
  pub r14 : ℕ
  pub r13 : ℕ
  pub r12 : ℕ
  pub r11 : ℕ
  pub r10 : ℕ
  pub r9 : ℕ
  pub r8 : ℕ
  pub rbp : ℕ
  pub rsi : ℕ
  pub rdi : ℕ
  pub rbx : ℕ
  pub rdx : ℕ
  pub rcx : ℕ
  pub cr3 : ℕ
  pub rax : ℕ
  pub int_no : ℕ
  pub err_code : ℕ
  pub rip : ℕ
  pub cs : ℕ
  pub rflags : ℕ
  pub rsp : ℕ
  pub ss : ℕ

-- `cr2` is the processor's register.
unfoldable pub print_isr_regs : IsrRegisters → Bool → ℕ → List Line
print_isr_regs regs extended cr2 =
    let fault = if ltb 0 cr2 then line "cr2" (cr2 ∷ []) ∷ [] else [] in
    let more =
      line "r10" (regs.r10 ∷ [])
      ∷ line "r11" (regs.r11 ∷ [])
      ∷ line "r12" (regs.r12 ∷ [])
      ∷ line "r13" (regs.r13 ∷ [])
      ∷ line "r14" (regs.r14 ∷ [])
      ∷ line "r15" (regs.r15 ∷ [])
      ∷ [] in
    let common =
      line "rbp" (regs.rbp ∷ [])
      ∷ line "rip" (regs.rip ∷ [])
      ∷ line "rsp" (regs.rsp ∷ [])
      ∷ line "cs" (regs.cs ∷ [])
      ∷ line "rflags" (regs.rflags ∷ [])
      ∷ line "cr3" (regs.cr3 ∷ [])
      ∷ line "ds" (bit_and regs.ds 0xffff ∷ [])
      ∷ line "ss" (regs.ss ∷ [])
      ∷ line "rax" (regs.rax ∷ [])
      ∷ line "rbx" (regs.rbx ∷ [])
      ∷ line "rcx" (regs.rcx ∷ [])
      ∷ line "rdx" (regs.rdx ∷ [])
      ∷ line "rdi" (regs.rdi ∷ [])
      ∷ line "rsi" (regs.rsi ∷ [])
      ∷ line "r8" (regs.r8 ∷ [])
      ∷ line "r9" (regs.r9 ∷ [])
      ∷ (if extended then more else []) in
    line "===isr[] err{}====" (regs.int_no ∷ regs.err_code ∷ [])
    ∷ line "err_code" (regs.err_code ∷ [])
    ∷ (fault ++ common)

-- The lines that tell what a page fault was.
pub data Cause : Type 0 where
  user_mode kernel_mode write read page_protection_violation page_not_present : Cause
  reserved_write instruction_fetch protection_key_violation shadow_stack_access : Cause

-- `handle_pagefault` on the error code. A mask stands for the bit it has.
unfoldable pub causes : ℕ → List Cause
causes err_code =
    let is_set : ℕ → Bool = λ mask. not (bit_and err_code mask == 0) in
    let last = if is_set 64 then shadow_stack_access ∷ [] else [] in
    let keys = if is_set 32 then protection_key_violation ∷ last else last in
    let fetch = if is_set 16 then instruction_fetch ∷ keys else keys in
    let rest = if is_set 8 then reserved_write ∷ fetch else fetch in
    (if is_set 4 then user_mode else kernel_mode)
    ∷ (if is_set 2 then write else read)
    ∷ (if is_set 1 then page_protection_violation else page_not_present)
    ∷ rest

nonzero-test : {n : ℕ} → n ≢ 0 → (n == 0) ≡ false
nonzero-test h = ground (arith, h)

-- What the processor's manual says of the bits of the error code.
abbrev pub is_said : ℕ → Cause → Bool
is_said e user_mode = test_bit e 2 == 1
is_said e kernel_mode = test_bit e 2 == 0
is_said e write = test_bit e 1 == 1
is_said e read = test_bit e 1 == 0
is_said e page_protection_violation = test_bit e 0 == 1
is_said e page_not_present = test_bit e 0 == 0
is_said e reserved_write = test_bit e 3 == 1
is_said e instruction_fetch = test_bit e 4 == 1
is_said e protection_key_violation = test_bit e 5 == 1
is_said e shadow_stack_access = test_bit e 6 == 1

abbrev pub all_causes : List Cause
all_causes =
    user_mode ∷ kernel_mode ∷ write ∷ read ∷ page_protection_violation ∷ page_not_present
    ∷ reserved_write ∷ instruction_fetch ∷ protection_key_violation ∷ shadow_stack_access ∷ []

unfoldable pub filter : (Cause → Bool) → List Cause → List Cause
filter p [] = []
filter p (c ∷ cs) = let rest = filter p cs in if p c then c ∷ rest else rest

mask-bit : (e k : ℕ) → not (bit_and e (2 ^ k) == 0) ≡ (test_bit e k == 1)
mask-bit e k = elim (ℕ_discrete (test_bit e k) 0) [
  | yes z ↦
      let clear = (bit_and-two_pow_iff k e).1 z in
      let no_bit : (test_bit e k == 1) ≡ false = ground (arith, z) in rw (clear, no_bit)
  | no nz ↦
      let bit : (test_bit e k == 1) ≡ true = ground (arith, nz, test_bit-lt_two e k) in
      let set : (bit_and e (2 ^ k) == 0) ≡ false =
        nonzero-test λ z. nz ((bit_and-two_pow_iff k e).0 z) in
      rw (bit, set)
]

-- What `filter` makes of a pair of causes, and of a single one.
abbrev pick : ℕ → ℕ → Cause → Cause → List Cause → List Cause
pick e k a b cs =
    let rest = if test_bit e k == 0 then b ∷ cs else cs in
    if test_bit e k == 1 then a ∷ rest else rest

abbrev option : ℕ → ℕ → Cause → List Cause → List Cause
option e k a cs = if test_bit e k == 1 then a ∷ cs else cs

either :
    (e k : ℕ) (a b : Cause) {cs cs' : List Cause}
    → cs ≡ cs'
    → (if not (bit_and e (2 ^ k) == 0) then a else b) ∷ cs ≡ pick e k a b cs'
either e k a b {cs} same = elim (Bool-cases (test_bit e k == 1)) [
  | inl h ↦
      let other : (test_bit e k == 0) ≡ false = ground (arith, h) in
      rw (mask-bit e k, h, other) (ap (λ cs. a ∷ cs) same)
  | inr h ↦
      let other : (test_bit e k == 0) ≡ true = ground (arith, h, test_bit-lt_two e k) in
      rw (mask-bit e k, h, other) (ap (λ cs. b ∷ cs) same)
]

if_set :
    (e k : ℕ) (a : Cause) {cs cs' : List Cause}
    → cs ≡ cs'
    → (if not (bit_and e (2 ^ k) == 0) then a ∷ cs else cs) ≡ option e k a cs'
if_set e k a {cs} same = rw (mask-bit e k) (ap (option e k a) same)

-- What is printed of a page fault is exactly what the processor's manual says of the bits that are set in
-- the error code, and for the first three bits of those that are not, the causes in their order.
pub causes_lem : (err_code : ℕ) → causes err_code ≡ filter (is_said err_code) all_causes
unfolding causes filter
causes_lem e = either e 2 user_mode kernel_mode (
    either e 1 write read (
      either e 0 page_protection_violation page_not_present (
        if_set e 3 reserved_write (
          if_set e 4 instruction_fetch
            (if_set e 5 protection_key_violation (if_set e 6 shadow_stack_access refl))))))
