-- ===== src/Machine/Kernel.antt =====
-- Code outside the repository, as parameters: the Linux kernel's functions that the runtime calls,
-- the functions that the data-flow sanitizer overrides, and the addresses that the linker and the
-- compiler choose. The state of the kernel and the processor is a number that only they read.
use kasper.Prelude.{ℕ, Bool, true, false, List, []}

abbrev pub World : Type 0
World = ℕ

pub record Kernel : Type 0 where
  pub in_interrupt : World → Bool
  pub irqs_disabled : World → Bool
  pub preempt_disable : World → World
  pub preempt_enable : World → World
  pub irq_flags : World → ℕ
  pub local_irq_disable : World → World
  pub local_irq_restore : ℕ → World → World
  pub stop_nmi : World → World
  pub restart_nmi : World → World
  pub syscall_get_nr : World → ℕ
  pub comm : World → ℕ → ℕ
  pub kdf_virt_addr_valid : World → ℕ → Bool
  pub dfsan_copy_label_info : ℕ → List ℕ
  pub kdfinit_in_rt : World → Bool
  pub kdf_in_rt : World → Bool
  pub text : ℕ
  pub etext : ℕ
  pub at_writelog_addrs : ℕ
  pub at_writelog_data : ℕ
  pub at_wl_position : ℕ
  pub at_writelog_enabled : ℕ

-- What the compiler and the stack give one call: the stack pointer, the frame address and the
-- return address, and where kspecem_restore_writelog has its locals.
pub record Frame : Type 0 where
  pub rsp : ℕ
  pub frame_address : ℕ
  pub return_address : ℕ
  pub at_addr : ℕ
  pub at_i : ℕ
  pub at_num_entries : ℕ

-- The weak functions of static/kspecem/kspecem_kdf.c, which stand where no sanitizer is linked: every
-- address is valid, the sanitizer never runs, and a label's text is not written.
unfoldable pub weak_defaults : Kernel → Kernel
weak_defaults k = record k {
  kdf_in_rt = λ w. false;
  kdfinit_in_rt = λ w. false;
  dfsan_copy_label_info = λ label. [];
  kdf_virt_addr_valid = λ w addr. true;
}
