-- ===== src/Tests/Kernel.antt =====
-- A boot with 160 MiB of memory and a framebuffer, on page tables that are there already.
use twos.Base.{
  List, [], ◌∷◌, [], ◌∷◌, Memory, load, store, ℕ, ◌+◌, ◌*◌, ◌≡◌, refl, sym, ap, ◌∙◌, inl, Bool,
  true, false, Option, none, some, arith,
}
use twos.Device.Framebuffer.{framebuffer_display_test_pattern}
use twos.Mem.Page.{round_up_to_page, page_align}
use twos.Mem.Phys.{get_phys, int_one_shl, set_phys, set_range}
use twos.Mem.Phys.Alloc.{extend, scan_bits, scan_word, scan_words, finish_malloc, phys_malloc}
use twos.Mem.Phys.Init.{
  survey_entry, survey, fill_used, region_use, probe, mark_map, mark_low, mark_and_probe,
  physmem_init,
}
use twos.Mem.Virt.{
  kernel_vaddr, Vmm, virt_get_next_map_level, virt_map_page, map_framebuffer, virtmem_init,
}
use twos.Kernel.Tags.{Fb, Boot, on_framebuffer, mmap_entries, on_mmap, on_tag, walk_tags}
use twos.Kernel.Walk.{no_fb, IsSound, walk_tags-IsSound}
use twos.Kernel.Chain.{TagHead, IsChain, handle_all, walk_tags-chain}
use twos.Kernel.Main.{
  boot_start-IsSound, multiboot2_bootloader_magic, boot_start, init_virt, kmain, IsReady, kmain_lem,
  kmain-pattern,
}

abbrev boot_memory : Memory
boot_memory = store 4 0x1008 6 (
    store 4 0x100c 40 (
      store 4 0x1010 24 (
        store 8 0x1020 0xa000000 (
          store 4 0x1028 1 (
            store 8 (kernel_vaddr + 0x2000) 0x3003 (
              store 8 (kernel_vaddr + 0x3000) 0x4003 (
                store 8 (kernel_vaddr + 0x3018) 0x4003 (
                  store 4 0x1030 8 (
                    store 4 0x1034 32 (
                      store 8 0x1038 0xfd000000 (
                        store 4 0x1040 256
                          (store 4 0x1044 64 (store 4 0x1048 64 (λ a. 0))))))))))))))

abbrev is_some : {A : Type 0} → Option A → Bool
is_some none = false
is_some (some a) = true

is_some-some : {A : Type 0} (o : Option A) → is_some o ≡ true → (a : A) × (o ≡ some a)
is_some-some none h = absurd (cc h)
is_some-some (some a) h = (a, refl)

abbrev shl_at_65 : ℕ → ℕ
shl_at_65 bit = 0

abbrev walked : Option Boot
walked = walk_tags shl_at_65 4 0x1008 boot_memory boot_start

walked_some : is_some walked ≡ true
unfolding walk_tags on_tag on_framebuffer on_mmap physmem_init mark_and_probe load store
    mmap_entries survey survey_entry fill_used mark_map mark_low set_range set_phys int_one_shl
    region_use probe get_phys round_up_to_page page_align
walked_some = refl

abbrev started : Option (Boot × Vmm)
started = kmain shl_at_65 4 0x2000 0x1000 0x36d76289 boot_memory

started_some : is_some started ≡ true
unfolding kmain init_virt virtmem_init map_framebuffer virt_map_page virt_get_next_map_level
    phys_malloc scan_words scan_word scan_bits extend finish_malloc walk_tags on_tag on_framebuffer
    on_mmap physmem_init mark_and_probe load store mmap_entries survey survey_entry fill_used
    mark_map mark_low set_range set_phys int_one_shl region_use probe get_phys round_up_to_page
    page_align
started_some = refl

kmain_runs : (r : Boot × Vmm) × (started ≡ some r)
kmain_runs = is_some-some started started_some

walk_tags_runs : (b : Boot) × (walked ≡ some b)
walk_tags_runs = is_some-some walked walked_some

abbrev fb_of : Option (Boot × Vmm) → Fb
fb_of none = no_fb
fb_of (some (b, s)) = b.kboot.fb

started_fb :
    fb_of started
    ≡ record { ptr = 0xfd000000; addr = 0xfd000000; w = 64; h = 64; pitch = 256; bpp = 0 }
unfolding kmain init_virt virtmem_init map_framebuffer virt_map_page virt_get_next_map_level
    phys_malloc scan_words scan_word scan_bits extend finish_malloc walk_tags on_tag on_framebuffer
    on_mmap physmem_init mark_and_probe load store mmap_entries survey survey_entry fill_used
    mark_map mark_low set_range set_phys int_one_shl region_use probe get_phys round_up_to_page
    page_align
started_fb = refl

kmain_fb :
    kmain_runs.0.0.kboot.fb
    ≡ record { ptr = 0xfd000000; addr = 0xfd000000; w = 64; h = 64; pitch = 256; bpp = 0 }
kmain_fb = sym (ap fb_of kmain_runs.1) ∙ started_fb

product_of_fb : kmain_runs.0.0.kboot.fb.h * kmain_runs.0.0.kboot.fb.pitch ≡ 64 * 256
product_of_fb = ap (λ f. f.h * f.pitch) kmain_fb

walk_tags_example : IsSound shl_at_65 boot_memory walk_tags_runs.0
walk_tags_example =
    walk_tags-IsSound shl_at_65 boot_memory 4 0x1008 boot_start walk_tags_runs.0
      (boot_start-IsSound shl_at_65 boot_memory) walk_tags_runs.1

kmain_example :
    (0x36d76289 ≡ multiboot2_bootloader_magic) × IsReady shl_at_65 boot_memory kmain_runs.0.0
kmain_example =
    kmain_lem shl_at_65 4 0x2000 0x1000 0x36d76289 boot_memory kmain_runs.0.0 kmain_runs.0.1
      kmain_runs.1

kmain-pattern_example :
    framebuffer_display_test_pattern kmain_runs.0.0.kboot.fb.addr kmain_runs.0.0.kboot.fb.w
      kmain_runs.0.0.kboot.fb.h kmain_runs.0.0.kboot.fb.pitch boot_memory 7
    ≡ boot_memory 7
kmain-pattern_example =
    kmain-pattern shl_at_65 4 0x2000 0x1000 0x36d76289 boot_memory kmain_runs.0.0 kmain_runs.0.1
      kmain_runs.1 (omega (arith, ap (λ f. f.w) kmain_fb, ap (λ f. f.pitch) kmain_fb))
      (omega (arith, product_of_fb)) boot_memory 7 (inl (omega (arith, ap (λ f. f.addr) kmain_fb)))

abbrev boot_tags : List TagHead
boot_tags = record { type = 6; size = 40 } ∷ record { type = 8; size = 32 } ∷ []

boot_memory-IsChain : IsChain boot_memory boot_tags 0x1008
unfolding IsChain load store
boot_memory-IsChain = (
  omega arith,
  refl,
  refl,
  omega arith,
  omega arith,
  (omega arith, refl, refl, omega arith, omega arith, refl),
)

walk_tags-chain_example :
    walk_tags shl_at_65 3 0x1008 boot_memory boot_start
    ≡ handle_all shl_at_65 boot_memory boot_tags 0x1008 boot_start
walk_tags-chain_example =
    walk_tags-chain shl_at_65 boot_memory boot_tags 0x1008 boot_start boot_memory-IsChain
