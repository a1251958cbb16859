-- ===== src/Device/ApicInit.antt =====
-- `apic_init` of src/kernel/apic/apic.c: the local interrupt controller is found, its page mapped, and
-- the old controllers are moved out of the way and masked.
use twos.Base.{
  Bool, not, ℕ, ◌+◌, ◌/◌, ◌^◌, ◌<◌, ◌≡◌, ◌≢◌, ◌∙◌, refl, ap, ◌==◌, if◌then◌else◌, false, Option,
  none, some, ◌>>=◌, List, ◌∷◌, get_elem?, load, bit_and, update, update_self, arith,
}
use twos.Cpu.Isr.{register_interupt_handler}
use twos.Device.IoApic.{Window}
use twos.Device.Lapic.{spurious_int, lapic_enable}
use twos.Device.Pic.{pic_remap, pic_disable, pic_clear_mask}
use twos.Device.Port.{Ports}
use twos.Mem.Virt.{Vmm, virt_map_page, virt_current_pd, page_default}
use twos.Mem.Virt.Map.{virt_map_page_lem}
use twos.Mem.Virt.Walk.{translate}
use twos.Mem.Virt.Way.{CanMap}

-- `CPUID_FEAT_EDX_APIC` of include/kernel/cpuid.h.
abbrev pub cpuid_feat_edx_apic : ℕ
cpuid_feat_edx_apic = 2 ^ 9

-- `lapic_addr` of `madt_t`, and `apic_id` of `proc_lapic_t`.
abbrev pub lapic_addr_offset : ℕ
lapic_addr_offset = 36

abbrev pub apic_id_offset : ℕ
apic_id_offset = 3

abbrev pub pic1_remap_offset : ℕ
pic1_remap_offset = 0x20

abbrev pub pic2_remap_offset : ℕ
pic2_remap_offset = 0x28

pub record Lapic : Type 0 where
  pub id : ℕ
  pub base : ℕ

-- What the code changes: the struct `lapic`, the page tables, the handlers and the hardware.
pub record Apic (S : Type 0) : Type 0 where
  pub lapic : Lapic
  pub vmm : Vmm
  pub handlers : ℕ → ℕ
  pub hardware : S

-- `edx` is what the processor answers.
abbrev pub apic_is_available : ℕ → Bool
apic_is_available edx = not (bit_and edx cpuid_feat_edx_apic == 0)

module _ {S : Type 0} (ports : Ports S) (window : Window S) where
  -- `madt` and `proc_apic` are those of the struct `acpi`, and `spurious_handler` is the handler's
  -- address. `none` stands for a failed assertion and for an empty table.
  unfoldable pub apic_init : ℕ → ℕ → ℕ → List ℕ → ℕ → Apic S → Option (Apic S)
  apic_init edx cr3 madt proc_apic spurious_handler a =
      let init = get_elem? proc_apic 0 >>= λ proc.
      let base = load 4 (madt + lapic_addr_offset) a.vmm.mem in
      let id = a.vmm.mem (proc + apic_id_offset) in
      virt_map_page (virt_current_pd cr3) base base page_default a.vmm >>= λ (_, vmm').
      pic_remap ports pic1_remap_offset pic2_remap_offset a.hardware >>= λ s. some (record {
        lapic = record { id = id; base = base };
        vmm = vmm';
        handlers = register_interupt_handler spurious_int spurious_handler a.handlers;
        hardware = lapic_enable window base (pic_disable ports s);
      }) in
      if apic_is_available edx then init else none

  pic_remap-some : (off1 off2 : ℕ) (s : S) → (s' : S) × (pic_remap ports off1 off2 s ≡ some s')
  unfolding pic_remap pic_clear_mask
  pic_remap-some off1 off2 s = (_, refl)

  -- Where the processor has a local controller, the tables name one processor at least, and the page
  -- of the controller's registers, below 2^52, can be mapped: `apic_init` returns, keeps the address
  -- that the table gives, every address of the registers' page translates to itself, and the spurious
  -- interrupt has its handler.
  pub apic_init_lem :
      (edx cr3 madt proc : ℕ) (procs : List ℕ) (spurious_handler : ℕ) (a : Apic S)
      → bit_and edx cpuid_feat_edx_apic ≢ 0
      → load 4 (madt + lapic_addr_offset) a.vmm.mem < 2 ^ 52
      → CanMap (virt_current_pd cr3) (load 4 (madt + lapic_addr_offset) a.vmm.mem) a.vmm
      → (a' : Apic S) × (apic_init edx cr3 madt (proc ∷ procs) spurious_handler a ≡ some a')
        × (a'.lapic.base ≡ load 4 (madt + lapic_addr_offset) a.vmm.mem)
        × ((v : ℕ)
            → v / 2 ^ 21 ≡ a'.lapic.base / 2 ^ 21
            → translate a'.vmm.mem (virt_current_pd cr3) v ≡ some v)
        × (a'.handlers spurious_int ≡ spurious_handler)
  unfolding apic_init register_interupt_handler
  apic_init_lem edx cr3 madt proc procs spurious_handler a available small can =
      let base = load 4 (madt + lapic_addr_offset) a.vmm.mem in
      let there : (bit_and edx cpuid_feat_edx_apic == 0) ≡ false = ground (arith, available) in
      let (vmm', maps, seen) =
        virt_map_page_lem (virt_current_pd cr3) base base page_default a.vmm (omega (arith, small))
          small (omega arith) can in
      let (s, remaps) = pic_remap-some pic1_remap_offset pic2_remap_offset a.hardware in
      let made : Apic S = record {
        lapic = record { id = a.vmm.mem (proc + apic_id_offset); base = base };
        vmm = vmm';
        handlers = update a.handlers spurious_int spurious_handler;
        hardware = lapic_enable window base (pic_disable ports s);
      } in
      (
        made,
        rw there (rw maps (rw remaps refl)),
        refl,
        λ v same. seen v same ∙ ap some (omega (arith, same)),
        update_self a.handlers spurious_int spurious_int spurious_handler refl,
      )
