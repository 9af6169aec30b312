-- ===== src/Interface.antt =====
-- static/kspecem/kspecem_interface.c and kspecem_interface.h: the hooks that instrumented code calls.
-- A hook that an instrumented program may call at any time first looks whether the runtime is set up
-- and not itself running, then works with interrupts off.
pub mod Program
pub mod Checkpoints
pub mod Rollback
pub mod Transparent
pub mod Calls
pub mod Limits
pub mod Depth
use kasper.Prelude.{
  ℕ, ◌+◌, Bool, true, false, not, ◌&&◌, ◌||◌, ltb, leb, ◌==◌, if◌then◌else◌, same_bool, wrap32,
  minus_one64,
}
use kasper.Machine.{State, Cmd, Act, reentered, in_spec, pure, ◌>>=◌, ◌>>◌, modify, read, when}
use kasper.Machine.Kernel.{Kernel, Frame}
use kasper.Machine.Types.{File, interface_c}
use kasper.Machine.Types.RestartType
use kasper.Machine.Types.FuncType
use kasper.Assert.{lt_assert, lt_panic}
use kasper.Statistics.{add_spec_statistics}
use kasper.RestartStats
use kasper.Whitelist
use kasper.Internal.{kspecem_restart, new_checkpoint, has_failed}
use kasper.Interrupt.{interrupt_timer, interrupt_exception}
use kasper.Store.{kspecem_store, kspecem_memcpy}
use kasper.Stack.{save_stack}
use kasper.PfChecker.{kspecem_access}
use kasper.Bugs.AccessReport.{kasan_report, ridl_report, specv1_report, smotherspectre_report}

-- `kspecem_init_done != true || kspecem_is_in_rt == true`
abbrev pub rt_busy : State → Bool
rt_busy s = not s.init_done || s.is_in_rt

module _ (k : Kernel) (again : Act) where
  -- ENTER_KSPECEM_NONMI_RT: what it returns is `__irq_flags`.
  unfoldable pub enter_nonmi_rt : Cmd ℕ
  enter_nonmi_rt =
      modify (λ s. record s { is_in_rt = true; world = k.preempt_disable s.world })
      >> read (λ s. k.irq_flags s.world)
          λ flags. modify (λ s. record s { world = k.local_irq_disable s.world }) >> pure flags

  unfoldable pub enter_rt : Cmd ℕ
  enter_rt = enter_nonmi_rt >>= λ flags.
      modify (λ s. record s { world = k.stop_nmi s.world }) >> pure flags

  -- LEAVE_KSPECEM_NONMI_RT in line `line`.
  unfoldable pub leave_nonmi_rt : (line flags : ℕ) → Act
  leave_nonmi_rt line flags =
      read (λ s. k.irqs_disabled s.world) (λ b. lt_assert again interface_c line b)
      >> modify λ s. record s {
        is_in_rt = false;
        world = k.preempt_enable (k.local_irq_restore flags s.world);
      }

  abbrev pub leave_rt_in : File → (line flags : ℕ) → Act
  leave_rt_in file line flags =
      read (λ s. k.irqs_disabled s.world) (λ b. lt_assert again file line b)
      >> modify λ s. record s {
        is_in_rt = false;
        world = k.preempt_enable (k.local_irq_restore flags (k.restart_nmi s.world));
      }

  unfoldable pub leave_rt : (line flags : ℕ) → Act
  leave_rt line flags = leave_rt_in interface_c line flags

  -- A body between ENTER_KSPECEM_RT and LEAVE_KSPECEM_RT, and the same with NONMI.
  abbrev pub within_rt : {A : Type 0} → ℕ → Cmd A → Cmd A
  within_rt line body = enter_rt >>= λ flags. body >>= λ a. leave_rt line flags >> pure a

  abbrev pub within_nonmi_rt : {A : Type 0} → ℕ → Cmd A → Cmd A
  within_nonmi_rt line body =
      enter_nonmi_rt >>= λ flags. body >>= λ a. leave_nonmi_rt line flags >> pure a

-- `again` is what an assertion in the hook starts; `f` is the call's place on the stack.
module _ (k : Kernel) (again : Act) (f : Frame) where
  unfoldable pub hook_check_spec_length : (bb_inst_count : ℕ) → Act
  hook_check_spec_length bb_inst_count = read in_spec λ spec. when spec (
      read rt_busy λ busy.
        read (λ s. k.kdfinit_in_rt s.world || k.kdf_in_rt s.world)
          λ sanitizer_busy.
            if busy || sanitizer_busy
            then pure tt
            else (modify (λ s. record s {
              emulation = record s.emulation {
                speculative_instr_count =
                    wrap32 (s.emulation.speculative_instr_count + bb_inst_count);
              };
            })
                >> read
                    (λ s.
                      leb s.emulation.max_speculative_instructions
                        s.emulation.speculative_instr_count)
                    λ limit. when limit (
                      within_rt k again 37 (
                        kspecem_restart k again f 0 RestartType.limit_spec f.return_address 0 0 0
                        >>= λ _. lt_panic interface_c 36))))

  unfoldable pub hook_print_restart_statistics : Act
  hook_print_restart_statistics =
      read rt_busy
        λ busy. when (not busy) (within_rt k again 50 RestartStats.print_restart_statistics)

  unfoldable pub hook_check_call_depth : Act
  hook_check_call_depth = read rt_busy λ busy.
      read (λ s. s.undolog.writelog_enabled)
        λ enabled. when (not busy && enabled) (
          add_spec_statistics again FuncType.check_call_depth 0 0 0 f.return_address
          >> (modify (λ s. record s {
            emulation = record s.emulation {
              spec_call_depth = wrap32 (s.emulation.spec_call_depth + 1);
            };
          })
              >> read (λ s. leb s.emulation.max_call_depth s.emulation.spec_call_depth)
                  λ limit. when limit (
                    within_rt k again 63 (
                      kspecem_restart k again f 0 RestartType.call_depth f.return_address 0 0 0
                      >>= λ _. lt_panic interface_c 62))))

  -- Lines 71 to 80: a checkpoint is taken neither in an interrupt nor with interrupts off, nor after
  -- a failed assertion, nor in a task that is not on the whitelist.
  unfoldable pub may_checkpoint : State → Bool
  may_checkpoint s =
      not (rt_busy s)
      && not (k.in_interrupt s.world)
      && not (k.irqs_disabled s.world)
      && not (has_failed s.spec_assert)
      && not (
          Whitelist.is_whitelist_task s.whitelist_type (k.syscall_get_nr s.world) (k.comm s.world)
          == 0)

  unfoldable pub hook_new_checkpoint : Cmd ℕ
  hook_new_checkpoint = read may_checkpoint λ may.
      if not may
      then pure minus_one64
      else read in_spec λ spec.
        if spec
        then (add_spec_statistics again FuncType.new_checkpoint_inspec 0 0 0 f.return_address
            >> pure minus_one64)
        else (enter_rt k again >>= λ flags. new_checkpoint again f.return_address >>= λ ret.
            pure (if ret == minus_one64 then ret else flags))

  unfoldable pub hook_restart : (arg restart_type call_arg : ℕ) → Cmd ℕ
  hook_restart arg type call_arg =
      read (λ s. s.init_done)
        λ init.
          if not init
          then pure 0
          else within_rt k again 102
              (kspecem_restart k again f arg type f.return_address call_arg 0 0)

  unfoldable pub hook_leave_rt : (irq_flags : ℕ) → Act
  hook_leave_rt irq_flags = when (not (irq_flags == minus_one64)) (leave_rt k again 108 irq_flags)

  unfoldable pub hook_save_stack : (irq_flags frameaddress : ℕ) → Act
  hook_save_stack irq_flags frameaddress =
      when (not (irq_flags == minus_one64)) (save_stack again f frameaddress)

  unfoldable pub hook_store : (addr : ℕ) → Act
  hook_store addr =
      read (λ s. s.undolog.writelog_enabled && s.init_done)
        λ active. when active (within_nonmi_rt k again 125 (kspecem_store k again f addr))

  unfoldable pub hook_memcpy : (addr size : ℕ) → Act
  hook_memcpy addr size =
      read (λ s. s.undolog.writelog_enabled && s.init_done)
        λ active. when active (within_rt k again 134 (kspecem_memcpy k again f addr size))

  -- Lines 145 and 146, 155 and 156.
  unfoldable pub check_interrupt : (frameaddr line : ℕ) → Act
  check_interrupt frameaddr line =
      lt_assert again interface_c line (not (frameaddr == 0))
      >> read (λ s. same_bool s.undolog.writelog_enabled (in_spec s))
          λ b. lt_assert again interface_c (line + 1) b

  unfoldable pub hook_interrupt_exception : (arg frameaddr exception_type : ℕ) → Cmd ℕ
  hook_interrupt_exception arg frameaddr exception_type =
      read (λ s. s.init_done)
        λ init.
          if not init
          then pure 0
          else (check_interrupt frameaddr 145
              >> read in_spec λ spec.
                if spec
                then (interrupt_exception k again f arg frameaddr exception_type >> pure 1)
                else pure 0)

  unfoldable pub hook_interrupt_timer : (arg frameaddr : ℕ) → Act
  hook_interrupt_timer arg frameaddr =
      read (λ s. s.init_done)
        λ init. when init (
          check_interrupt frameaddr 155
          >> read in_spec λ spec. when spec (interrupt_timer k again f arg frameaddr))

  unfoldable pub hook_kasan_report : (addr size : ℕ) (is_write : Bool) (ip : ℕ) → Cmd Bool
  hook_kasan_report addr size is_write ip =
      if ltb addr 0x100000
      then pure false
      else read rt_busy λ busy.
        if busy
        then pure false
        else (within_nonmi_rt k again 169 (kasan_report k again addr size is_write ip) >> pure true)

  unfoldable pub hook_ridl_report :
      (addr size : ℕ) (is_write : Bool) (ip data_label ptr_label : ℕ) → Act
  hook_ridl_report addr size is_write ip data_label ptr_label = read rt_busy λ busy.
      when (not busy) (
        within_nonmi_rt k again 177
          (ridl_report k again addr size is_write ip data_label ptr_label))

  unfoldable pub hook_specv1_report :
      (addr size : ℕ) (is_write : Bool) (ip data_label ptr_label : ℕ) → Act
  hook_specv1_report addr size is_write ip data_label ptr_label = read rt_busy λ busy.
      when (not busy) (
        within_nonmi_rt k again 184
          (specv1_report k again addr size is_write ip data_label ptr_label))

  unfoldable pub hook_smotherspectre_report : (ip label : ℕ) → Act
  hook_smotherspectre_report ip label =
      read rt_busy λ busy.
        when (not busy) (within_nonmi_rt k again 191 (smotherspectre_report k again ip label))

  unfoldable pub hook_is_whitelist_task : Cmd ℕ
  hook_is_whitelist_task = read rt_busy λ busy.
      if busy
      then pure 0
      else within_rt k again 199 (
          read
            (λ s.
              Whitelist.is_whitelist_task s.whitelist_type (k.syscall_get_nr s.world)
                (k.comm s.world))
            pure)

  unfoldable pub hook_access : (ptr size : ℕ) → Cmd ℕ
  hook_access ptr size =
      read (λ s. in_spec s && s.init_done)
        λ active.
          if not active
          then pure ptr
          else within_nonmi_rt k again 221 (
              read
                (λ s. kspecem_access s.pf_dummy_region (k.kdf_virt_addr_valid s.world ptr) ptr size)
                pure)

-- What a failed assertion starts, `kspecem_hook_restart(0x0, 0xffff, 0x0)`. An assertion that fails
-- inside this restart would start another one: that outcome is `reentered`.
unfoldable pub restart_again : Kernel → Frame → Act
restart_again k f = hook_restart k reentered f 0 0xffff 0 >>= λ _. pure tt
