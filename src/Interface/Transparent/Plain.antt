-- ===== src/Interface/Transparent/Plain.antt =====
-- A program of branches leaves the memory of the program without hooks.
use kasper.Prelude.{
  ℕ, ◌≡◌, refl, ap, ◌∙◌, false, List, [], ◌∷◌, ◌==◌, All, Bool-cases, inl, inr, minus_one64,
}
use kasper.Machine.{State, Act, pure, ◌>>=◌, ◌>>◌}
use kasper.Machine.Kernel.{Kernel, Frame, World}
use kasper.Internal.{start_emulation}
use kasper.Store.Speculating.{BackAt}
use kasper.Store.Covered.{Continues-mono}
use kasper.Interface.{hook_leave_rt, may_checkpoint}
use kasper.Interface.Program.{KernelLaws}
use kasper.Interface.Checkpoints.{
  checkpoint, started, take_checkpoint-started, started-IsSpeculating,
}
use kasper.Interface.Transparent.{
  Branch, plain_writes, plain, run_path, run_branch, run_branches, IsIdle, AgreesWith, CanRun,
}
use kasper.Interface.Transparent.Outcomes.{
  plain_writes-same, plain-same, Returns, on_resume-Returns, on_resume-returned, Returns-bind,
}
use kasper.Interface.Transparent.Quiet.{
  Quiet, run_path-idle, run_path-BackAt, take_checkpoint-refused, MayStart-allowed,
  hook_leave_rt-idle,
}

module _ (k : Kernel) (laws : KernelLaws k) (again : Act) (f : Frame) (addrs regions : ℕ) where
  -- What the end of a speculation leaves is outside speculation, with the checkpoint's memory.
  BackAt-IsIdle :
      (live : ℕ → ℕ) (frameaddress : ℕ) (s t : State)
      → IsIdle addrs regions s
      → BackAt k again f (checkpoint k again f live frameaddress s) t
      → IsIdle addrs regions t × AgreesWith f s.mem t
  BackAt-IsIdle live frameaddress s t v back = (
    record {
      idle = back.spec_over;
      log_off = back.log_off;
      no_swap = back.no_swap;
      addrs_at = back.same_addrs ∙ v.addrs_at;
      regions_at = back.same_regions ∙ v.regions_at;
      buffer = rw back.same_stack v.buffer;
    },
    λ a own. back.restored a (inl own),
  )

  module _ (local : (f.at_addr == 0) ≡ false) (present : (addrs == 0) ≡ false)
      (present' : (regions == 0) ≡ false)
      (flags : (w : World) → (k.irq_flags w == minus_one64) ≡ false) where
    -- What a branch and what follows it leave.
    abbrev Ran : (m : ℕ → ℕ) → State → Type 0
    Ran m t = IsIdle addrs regions t × AgreesWith f m t

    -- Behind a restart: out of the runtime, then the right way.
    resumed-Ran :
        (b : Branch) (n : ℕ) (m : ℕ → ℕ) (t : State)
        → Ran m t
        → Returns
            (Ran (plain_writes (b.writes b.taken) m))
            ((hook_leave_rt k again f n >> (run_path k again f b >>= λ _. pure tt)) t)
    resumed-Ran b n m t (v, agrees) =
        Returns-bind (Quiet k laws again f addrs regions t.mem)
          (Ran (plain_writes (b.writes b.taken) m)) (hook_leave_rt k again f n t) _
          (hook_leave_rt-idle k laws again f addrs regions n t v)
          (λ _ u (w, e).
            Returns-bind
              (Quiet k laws again f addrs regions (plain_writes (b.writes b.taken) u.mem))
              (Ran (plain_writes (b.writes b.taken) m)) (run_path k again f b u) _
              (run_path-idle k laws again f addrs regions b u w)
              (λ _ x (y, e'). (
                y,
                λ a own.
                    ap (λ (g : ℕ → ℕ). g a) e'
                    ∙ plain_writes-same (b.writes b.taken) u.mem m a
                        (ap (λ (g : ℕ → ℕ). g a) e ∙ agrees a own),
              )))

    run_branch-Ran :
        (b : Branch) (s : State)
        → IsIdle addrs regions s
        → CanRun k f addrs regions b
        → Returns (Ran (plain_writes (b.writes b.taken) s.mem)) (run_branch k again f b s)
    unfolding run_branch start_emulation
    run_branch-Ran b s v can = elim (Bool-cases (may_checkpoint k again f s)) [
      | inl allowed ↦
          let m =
            MayStart-allowed k laws again f addrs regions b.frameaddress s allowed (flags _) v
              present present' can.frame_above can.frame_fits can.frame_word in
          let c = checkpoint k again f b.live b.frameaddress s in
          rw (take_checkpoint-started k again f laws b.live b.frameaddress s m) (
            on_resume-Returns (Ran (plain_writes (b.writes b.taken) s.mem)) (BackAt k again f c)
              (run_path k again f b (started k again f b.live b.frameaddress s)) _
              (run_path-BackAt k laws again f addrs regions b c
                (started k again f b.live b.frameaddress s) local
                (can.loggable c v.addrs_at v.regions_at) refl
                (started-IsSpeculating k again f b.live b.frameaddress s m))
              (λ t back. resumed-Ran b _ s.mem t (BackAt-IsIdle b.live b.frameaddress s t v back)))
      | inr refused ↦
          rw (take_checkpoint-refused k laws again f addrs regions b.live b.frameaddress s refused)
            (on_resume-returned (Ran (plain_writes (b.writes b.taken) s.mem))
              (run_path k again f b s) _ (quiet-Ran b s v))
    ]
      where
        quiet-Ran :
            (b : Branch) (s : State)
            → IsIdle addrs regions s
            → Returns (Ran (plain_writes (b.writes b.taken) s.mem)) (run_path k again f b s)
        quiet-Ran b s v =
            Continues-mono
              (λ _. Quiet k laws again f addrs regions (plain_writes (b.writes b.taken) s.mem))
              (λ _. Ran (plain_writes (b.writes b.taken) s.mem)) (λ _. ⊥) (run_path k again f b s)
              (run_path-idle k laws again f addrs regions b s v)
              (λ _ t (w, e). (w, λ a own. ap (λ (g : ℕ → ℕ). g a) e))

    -- A program of branches, each with its checkpoint, its speculation down either way and the
    -- restart behind it, ends outside speculation with the memory that the program has without
    -- hooks, but for words of the frames that run the restarts; or the kernel panics. It starts
    -- outside speculation with the memory of the log and of the stack's buffer there; each branch's
    -- frame fits that buffer, its stores have at most eight bytes, the words that its hooks save
    -- are outside the log's arrays and the log's two variables and end below 2^64, and the flags of
    -- interrupts are never -1.
    pub run_branches-plain :
        (bs : List Branch) (s : State)
        → IsIdle addrs regions s
        → All (CanRun k f addrs regions) bs
        → Returns
            (λ t. IsIdle addrs regions t × AgreesWith f (plain bs s.mem) t)
            (run_branches k again f bs s)
    unfolding run_branches
    run_branches-plain [] s v can = (v, λ a own. refl)
    run_branches-plain (b ∷ bs) s v can =
        let m = plain_writes (b.writes b.taken) s.mem in
        Returns-bind (Ran m) (Ran (plain bs m)) (run_branch k again f b s) _
          (run_branch-Ran b s v can.0)
          (λ _ t (w, agrees).
            Continues-mono (λ _. Ran (plain bs t.mem)) (λ _. Ran (plain bs m)) (λ _. ⊥)
              (run_branches k again f bs t) (run_branches-plain bs t w can.1)
              (λ _ u (x, same). (x, λ a own. same a own ∙ plain-same bs t.mem m a (agrees a own))))
