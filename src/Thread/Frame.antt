-- ===== src/Thread/Frame.antt =====
-- The stack frame that kthread_create of arch/ia32/thread.c builds, and the instructions of
-- arch/ia32/entry.S that take it apart when the thread first runs. Stacks are words of memory,
-- named by address / 4; an index below is in words.
use rjk.Base.{ℕ, ◌+◌, ◌-◌, ◌<◌, ◌≤◌, ◌≡◌, ◌⊎◌, List, [], ◌∷◌, arith, update}

abbrev pub Stack : Type 0
Stack = ℕ → ℕ

-- stack[-1] = …; stack[-2] = …; and so on downwards
abbrev pub push_words : ℕ → List ℕ → Stack → Stack
push_words top [] m = m
push_words top (v ∷ vs) m = push_words (top - 1) vs (update m (top - 1) v)

-- `kill` is the address of kthread_kill_current.
unfoldable pub write_frame : ℕ → (kill function data_ptr : ℕ) → Stack → Stack
write_frame top kill function data_ptr =
    push_words top
      (data_ptr ∷ kill ∷ 0x200 ∷ 0x10 ∷ function ∷ 0 ∷ 0 ∷ 0 ∷ 0 ∷ 0 ∷ 0 ∷ 0 ∷ 0 ∷ 0 ∷ [])

-- The word that `esp` of the new thread names: (1 + 1 + 3 + 1 + 7) words below the top.
abbrev pub frame_start : ℕ → ℕ
frame_start top = top - (1 + 1 + 3 + 1 + 7)

-- What a thread has in its registers after RESTOREREGS; popfl; iret, and where its stack then is.
pub record Resumed : Type 0 where
  pub ebp : ℕ
  pub esi : ℕ
  pub edi : ℕ
  pub edx : ℕ
  pub ecx : ℕ
  pub ebx : ℕ
  pub eax : ℕ
  pub eip : ℕ
  pub cs : ℕ
  pub eflags : ℕ
  pub esp : ℕ

-- `popl %esp` has loaded `esp`; then seven pops, `popfl`, and `iret` takes eip, cs and eflags.
unfoldable pub resume : Stack → ℕ → Resumed
resume m esp = record {
  ebp = m esp;
  esi = m (esp + 1);
  edi = m (esp + 2);
  edx = m (esp + 3);
  ecx = m (esp + 4);
  ebx = m (esp + 5);
  eax = m (esp + 6);
  eip = m (esp + 8);
  cs = m (esp + 9);
  eflags = m (esp + 10);
  esp = esp + 11;
}

-- A thread that kthread_create made starts at its function in the kernel's code segment with
-- interrupts on and the other registers zero. On its stack it finds kthread_kill_current as the
-- return address and the data as the argument; the words outside the frame are untouched.
pub resume-write_frame :
    (top kill function data_ptr : ℕ) (m : Stack)
    → 14 ≤ top
    → (p : ℕ) → (top ≤ p) ⊎ (p < top - 14)
    → let m' = write_frame top kill function data_ptr m in
      let r = resume m' (frame_start top) in
      (r.eip ≡ function)
      × (r.cs ≡ 0x10)
      × (r.eflags ≡ 0x200)
      × (r.eax ≡ 0)
      × (r.ebx ≡ 0)
      × (r.ecx ≡ 0)
      × (r.edx ≡ 0)
      × (m' r.esp ≡ kill)
      × (m' (r.esp + 1) ≡ data_ptr)
      × (m' p ≡ m p)
unfolding resume write_frame
resume-write_frame top kill function data_ptr m h p outside = (
  ground arith,
  ground arith,
  ground arith,
  ground arith,
  ground arith,
  ground arith,
  ground arith,
  ground arith,
  ground arith,
  ground arith,
)
