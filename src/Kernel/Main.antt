-- ===== src/Kernel/Main.antt =====
-- `kmain` up to the memory managers: the tags, and `virtmem_init` on what they say. What comes before,
-- the serial port, the segments and the interrupts, and what comes behind is in Kernel/Start.
use twos.Base.{
  ℕ, ◌+◌, ◌*◌, ◌^◌, ◌≤◌, ◌<◌, ◌≡◌, ◌≢◌, ◌⊎◌, refl, ap, subst, inl, inr, ◌==◌, ltb, not,
  if◌then◌else◌, true, false, Bool-cases, Option, none, some, ◌>>=◌, >>=-eq-some, List, [],
  replicate, Memory, u64, arith,
}
use twos.Acpi.{acpi_validate_rsdp}
use twos.Boot.Cmdline.{no_args}
use twos.Device.Framebuffer.{framebuffer_display_test_pattern}
use twos.Device.Framebuffer.Fill.{FitsIn, framebuffer_display_test_pattern-bounds}
use twos.Mem.Page.{page_size}
use twos.Mem.Phys.{Physmem, Mmap, pmm_size}
use twos.Mem.Phys.Init.{physmem_init}
use twos.Mem.Phys.Alloc.{phys_malloc}
use twos.Mem.Virt.{Vmm, virtmem_init}
use twos.Kernel.Tags.{KernelBoot, Boot, Fb, walk_tags}
use twos.Kernel.Walk.{no_fb, IsSound, walk_tags-IsSound}

abbrev pub multiboot2_bootloader_magic : ℕ
multiboot2_bootloader_magic = 0x36d76289

-- The state before the loop: `is_legacy_bios` is set, and then all of `kboot` is cleared.
abbrev pub boot_start : Boot
boot_start = record {
  kboot = record {
    use_serial = false;
    level = 0;
    mmap_size = 0;
    fb = no_fb;
    is_legacy_bios = false;
  };
  cmdline = no_args;
  total_mem = 0;
  rsdp = 0;
  physmem = record {
    pmm = replicate pmm_size 0;
    mmaps = [];
    size = 0;
    mm_end = 0;
    end_addr = 0;
    total_avail = 0;
  };
}

-- `virtmem_init` on the framebuffer found; at its end `kboot.fb.ptr` is the address.
unfoldable pub init_virt : ℕ → Memory → Boot → Option (Boot × Vmm)
init_virt cr3 mem b =
    let fb = b.kboot.fb in
    let s : Vmm = record { mem = mem; physmem = b.physmem; cur = 0 } in
    virtmem_init cr3 fb.addr fb.h fb.pitch s >>= λ s'.
    let fb' : Fb = record fb { ptr = fb.addr } in
    let k : KernelBoot = record b.kboot { fb = fb' } in
    let b' : Boot = record b { kboot = k; physmem = s'.physmem } in some (b', s')

unfoldable pub kmain : (ℕ → ℕ) → ℕ → ℕ → ℕ → ℕ → Memory → Option (Boot × Vmm)
kmain wide fuel cr3 header magic mem =
    let boot = walk_tags wide fuel (header + 8) mem boot_start >>= λ b.
    if b.total_mem == 0 then none else init_virt cr3 mem b in
    if not (magic == multiboot2_bootloader_magic) then none else boot

pub boot_start-IsSound : (wide : ℕ → ℕ) (mem : Memory) → IsSound wide mem boot_start
boot_start-IsSound wide mem = record {
  fb = inl refl;
  rsdp = inl refl;
  memory = inl refl;
  legacy = refl;
}

-- What `kmain` went through.
kmain-steps :
    (wide : ℕ → ℕ) (fuel cr3 header magic : ℕ) (mem : Memory) (b' : Boot) (s' : Vmm)
    → kmain wide fuel cr3 header magic mem ≡ some (b', s')
    → (magic ≡ multiboot2_bootloader_magic)
      × (b : Boot) × (walk_tags wide fuel (header + 8) mem boot_start ≡ some b)
      × (b.total_mem ≢ 0)
      × (init_virt cr3 mem b ≡ some (b', s'))
unfolding kmain
kmain-steps wide fuel cr3 header magic mem b' s' h =
    elim (Bool-cases (magic == multiboot2_bootloader_magic)) [
      | inr e ↦ absurd (cc (rw e at h))
      | inl e ↦
          let (b, walks, rest) =
            >>=-eq-some (walk_tags wide fuel (header + 8) mem boot_start) _ (rw e at h) in
          elim (Bool-cases (b.total_mem == 0)) [
            | inl z ↦ absurd (cc (rw z at rest))
            | inr z ↦ (ground (arith, e), b, walks, ground (arith, z), rw z at rest)
          ]
    ]

virtmem_init-fits :
    (cr3 fb_addr h pitch : ℕ) (s s' : Vmm)
    → virtmem_init cr3 fb_addr h pitch s ≡ some s'
    → u64 (h * pitch) < page_size * 4
unfolding virtmem_init
virtmem_init-fits cr3 fb_addr h pitch s s' runs =
    let (taken, mallocs, rest) = >>=-eq-some (phys_malloc (page_size * 64) s.physmem) _ runs in
    elim (Bool-cases (ltb (u64 (h * pitch)) (page_size * 4))) [
      | inl e ↦ ground (arith, e)
      | inr e ↦ absurd (cc (rw e at rest))
    ]

-- There is memory, which `physmem_init` found on a map; the framebuffer is usable or none, and ends
-- within four pages; the root pointer is null or has a right checksum.
pub record IsReady (wide : ℕ → ℕ) (mem : Memory) (b : Boot) : Type 0 where
  pub some_memory : b.total_mem ≢ 0
  pub found :
      (mmaps : List Mmap) × (n : ℕ) × (m : Physmem) × (physmem_init wide mmaps n
        ≡ some (b.total_mem, m))
  pub fb :
      (b.kboot.fb.addr ≡ 0)
      ⊎ ((b.kboot.fb.addr ≤ 2 ^ 44) × (64 ≤ b.kboot.fb.w) × (64 ≤ b.kboot.fb.h))
  pub small : u64 (b.kboot.fb.h * b.kboot.fb.pitch) < page_size * 4
  pub rsdp : (b.rsdp ≡ 0) ⊎ (acpi_validate_rsdp b.rsdp mem ≡ true)

-- Whatever the boot loader hands over, `kmain` gets past the memory managers only if the magic number
-- is right and the state is ready: memory from a map, a framebuffer that is usable or none and ends
-- within four pages, and a root pointer that is null or has a right checksum.
pub kmain_lem :
    (wide : ℕ → ℕ) (fuel cr3 header magic : ℕ) (mem : Memory) (b' : Boot) (s' : Vmm)
    → kmain wide fuel cr3 header magic mem ≡ some (b', s')
    → (magic ≡ multiboot2_bootloader_magic) × IsReady wide mem b'
unfolding init_virt
kmain_lem wide fuel cr3 header magic mem b' s' h =
    let (right, b, walks, memory, virt) = kmain-steps wide fuel cr3 header magic mem b' s' h in
    let s =
      walk_tags-IsSound wide mem fuel (header + 8) boot_start b (boot_start-IsSound wide mem)
        walks in
    let start : Vmm = record { mem = mem; physmem = b.physmem; cur = 0 } in
    let fb = b.kboot.fb in
    let (s₁, maps, made) = >>=-eq-some (virtmem_init cr3 fb.addr fb.h fb.pitch start) _ virt in
    let fb' : Fb = record fb { ptr = fb.addr } in
    let k : KernelBoot = record b.kboot { fb = fb' } in
    let b₁ : Boot = record b { kboot = k; physmem = s₁.physmem } in
    let same : b₁ ≡ b' = cc made in
    let ready : IsReady wide mem b₁ = record {
      some_memory = memory;
      found = elim s.memory [
        | inl z ↦ absurd (memory z)
        | inr (mmaps, n, inits) ↦ (mmaps, n, b.physmem, inits)
      ];
      fb = elim s.fb [
        | inl none_set ↦ inl (ap (λ f. f.addr) none_set)
        | inr usable ↦ inr (usable.below, usable.wide, usable.high)
      ];
      small = virtmem_init-fits cr3 fb.addr fb.h fb.pitch start s₁ maps;
      rsdp = s.rsdp;
    } in
    (right, subst (IsReady wide mem) same ready)

-- Where `kmain` gets past the memory managers, the pitch of the framebuffer holds a row, and its height
-- times its pitch does not wrap: the test pattern that `kmain` draws next writes no byte outside the
-- four pages from the framebuffer's address on.
pub kmain-pattern :
    (wide : ℕ → ℕ) (fuel cr3 header magic : ℕ) (mem : Memory) (b' : Boot) (s' : Vmm)
    → kmain wide fuel cr3 header magic mem ≡ some (b', s')
    → 4 * b'.kboot.fb.w ≤ b'.kboot.fb.pitch
    → b'.kboot.fb.h * b'.kboot.fb.pitch < 2 ^ 64
    → (mem' : Memory) (a : ℕ) → (a < b'.kboot.fb.addr) ⊎ (b'.kboot.fb.addr + page_size * 4 ≤ a)
    → framebuffer_display_test_pattern b'.kboot.fb.addr b'.kboot.fb.w b'.kboot.fb.h
        b'.kboot.fb.pitch mem' a
      ≡ mem' a
kmain-pattern wide fuel cr3 header magic mem b' s' h rows whole mem' a outside =
    let fb = b'.kboot.fb in
    let ready = (kmain_lem wide fuel cr3 header magic mem b' s' h).1 in
    let size : fb.h * fb.pitch < page_size * 4 = omega (arith, ready.small, whole) in
    let fits : FitsIn fb.w fb.h fb.pitch = record { row = rows; size = omega (arith, size) } in
    framebuffer_display_test_pattern-bounds fb.addr fb.pitch fb.w fb.h mem' fits a
      (omega (arith, outside, size))
