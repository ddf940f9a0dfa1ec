-- ===== src/Irq/Exception.antt =====
-- handle_exception of arch/ia32/irq.c and print_stack_trace of arch/ia32/thread.c. What is printed is a list of
-- the calls of kprintf, each by its format and the words behind it. The stack is read by words:
-- `stack[k]` is the word k behind the aligned address of `stack`.
use rjk.Base.{
  ℕ, zero, suc, ◌+◌, ◌/◌, ◌<◌, ◌≡◌, ◌≢◌, refl, true, false, Option, none, some, List, [], ◌∷◌, ◌++◌,
  ◌==◌, if◌then◌else◌, map, length, arith, Line,
}

-- `struct processor_regs`
pub record ProcessorRegs : Type 0 where
  pub esp : ℕ
  pub ebp : ℕ
  pub esi : ℕ
  pub edi : ℕ
  pub edx : ℕ
  pub ecx : ℕ
  pub ebx : ℕ
  pub eax : ℕ
  pub error : ℕ
  pub eip : ℕ
  pub cs : ℕ
  pub eflags : ℕ

-- The control registers that are read.
pub record ControlRegs : Type 0 where
  pub cr0 : ℕ
  pub cr2 : ℕ
  pub cr3 : ℕ

-- `stack[k]`
abbrev pub stack_word : (words : ℕ → ℕ) → (stack k : ℕ) → ℕ
stack_word words stack k = words (stack / 4 + k)

-- The line of one frame.
unfoldable pub frame_line : (words : ℕ → ℕ) → (stack : ℕ) → Line
frame_line words stack = (
  "%0.8x %0.8x %0.8x %0.8x %0.8x\n",
  stack_word words stack 1
      ∷ stack_word words stack 2
      ∷ stack_word words stack 3
      ∷ stack_word words stack 4
      ∷ stack_word words stack 5
      ∷ [],
)

-- `while(stack && stack[0])`; `none` when it has not ended after `rounds`.
unfoldable pub trace_loop : (rounds : ℕ) → (words : ℕ → ℕ) → (stack : ℕ) → Option (List Line)
unfolding frame_line
trace_loop zero words stack = none
trace_loop (suc rounds) words stack =
    let line = frame_line words stack in
    let more : Option (List Line) = elim (trace_loop rounds words (stack_word words stack 0)) [
      | none ↦ none
      | some lines ↦ some (line ∷ lines)
    ] in
    if stack == 0 then some [] else if stack_word words stack 0 == 0 then some [] else more

unfoldable pub print_stack_trace :
    (rounds : ℕ) → (words : ℕ → ℕ) → ProcessorRegs → Option (List Line)
unfolding trace_loop
print_stack_trace rounds words regs = elim (trace_loop rounds words regs.ebp) [
  | none ↦ none
  | some lines ↦ some (("Stack Trace\n", []) ∷ lines)
]

-- cr1 and cr4 are not read, so 0 is printed for them.
unfoldable pub exception_lines : (number : ℕ) → ProcessorRegs → ControlRegs → List Line
exception_lines number regs control =
    ("Exception=%02x\n", number ∷ [])
    ∷ (
      "eflags=%0.8x cs=%0.8x eip=%0.8x error=%0.8x\n",
      regs.eflags ∷ regs.cs ∷ regs.eip ∷ regs.error ∷ [],
    )
    ∷ ("eax=%0.8x ebx=%0.8x ecx=%0.8x edx=%0.8x\n", regs.eax ∷ regs.ebx ∷ regs.ecx ∷ regs.edx ∷ [])
    ∷ ("edi=%0.8x esi=%0.8x ebp=%0.8x esp=%0.8x\n", regs.edi ∷ regs.esi ∷ regs.ebp ∷ regs.esp ∷ [])
    ∷ (
      "cr0=%0.8x cr1=%0.8x cr2=%0.8x cr3=%0.8x cr4=%0.8x\n",
      control.cr0 ∷ 0 ∷ control.cr2 ∷ control.cr3 ∷ 0 ∷ [],
    )
    ∷ []

-- What is printed before kthread_kill_current; `none` when the stack trace does not end.
unfoldable pub handle_exception :
    (rounds : ℕ) → (words : ℕ → ℕ) → (number : ℕ) → ProcessorRegs → ControlRegs → Option (List Line)
unfolding exception_lines print_stack_trace
handle_exception rounds words number regs control = elim (print_stack_trace rounds words regs) [
  | none ↦ none
  | some lines ↦ some (exception_lines number regs control ++ lines)
]

-- The frames from `stack` on, by the word that each has for the next, up to the first that has 0 there or
-- lies at 0.
pub data Frames (words : ℕ → ℕ) : ℕ → List ℕ → Type 0 where
  null : (stack : ℕ) → stack ≡ 0 → Frames words stack []
  last : (stack : ℕ) → stack ≢ 0 → stack_word words stack 0 ≡ 0 → Frames words stack []
  frame :
      (stack : ℕ) (rest : List ℕ)
      → stack ≢ 0
      → stack_word words stack 0 ≢ 0
      → Frames words (stack_word words stack 0) rest
      → Frames words stack (stack ∷ rest)

ne→false : (a : ℕ) → a ≢ 0 → (a == 0) ≡ false
ne→false a h = ground arith

eq→true : (a : ℕ) → a ≡ 0 → (a == 0) ≡ true
eq→true a h = ground arith

trace_loop_lem :
    (words : ℕ → ℕ) (rounds stack : ℕ) (frames : List ℕ)
    → Frames words stack frames
    → length frames < rounds
    → trace_loop rounds words stack ≡ some (map (frame_line words) frames)
unfolding trace_loop
trace_loop_lem words zero stack frames f h = absurd (omega arith)
trace_loop_lem words (suc rounds) _ _ (Frames.null stack e) h = rw (eq→true stack e) refl
trace_loop_lem words (suc rounds) _ _ (Frames.last stack n e) h =
    rw (ne→false stack n) (rw (eq→true _ e) refl)
trace_loop_lem words (suc rounds) _ _ (Frames.frame stack rest n m f) h =
    let ih = trace_loop_lem words rounds (stack_word words stack 0) rest f (omega arith) in
    rw (ne→false stack n) (rw (ne→false _ m) (rw ih refl))

print_stack_trace_lem :
    (words : ℕ → ℕ) (rounds : ℕ) (regs : ProcessorRegs) (frames : List ℕ)
    → Frames words regs.ebp frames
    → length frames < rounds
    → print_stack_trace rounds words regs
      ≡ some (("Stack Trace\n", []) ∷ map (frame_line words) frames)
unfolding print_stack_trace
print_stack_trace_lem words rounds regs frames f h =
    rw (trace_loop_lem words rounds regs.ebp frames f h, print_stack_trace) refl

-- When the frames that ebp leads to are finitely many, an exception is reported after at most one round
-- more than there are frames: the five lines of registers, the headline of the trace, and the five words
-- of each frame, from the innermost out; the frame whose next one is 0 is left out.
pub handle_exception_lem :
    (words : ℕ → ℕ) (rounds number : ℕ) (regs : ProcessorRegs) (control : ControlRegs)
    (frames : List ℕ)
    → Frames words regs.ebp frames
    → length frames < rounds
    → handle_exception rounds words number regs control
      ≡ some (
          exception_lines number regs control
          ++ (("Stack Trace\n", []) ∷ map (frame_line words) frames))
unfolding handle_exception
handle_exception_lem words rounds number regs control frames f h =
    rw (print_stack_trace_lem words rounds regs frames f h, handle_exception) refl

-- A set of frames, none at 0, each of which leads to one of the set.
pub record IsEndless (words : ℕ → ℕ) (IsFrame : ℕ → Type 0) : Type 0 where
  pub not_null : (stack : ℕ) → IsFrame stack → stack ≢ 0
  pub leads_on : (stack : ℕ) → IsFrame stack → IsFrame (stack_word words stack 0)

trace_loop-none :
    {IsFrame : ℕ → Type 0} (words : ℕ → ℕ) (rounds stack : ℕ)
    → IsEndless words IsFrame
    → IsFrame stack
    → trace_loop rounds words stack ≡ none
unfolding trace_loop
trace_loop-none words zero stack endless here = refl
trace_loop-none words (suc rounds) stack endless here =
    let next = endless.leads_on stack here in
    rw (ne→false stack (endless.not_null stack here)) (
      rw (ne→false (stack_word words stack 0) (endless.not_null (stack_word words stack 0) next))
        (rw (trace_loop-none words rounds (stack_word words stack 0) endless next) refl))

-- Where the frames that ebp leads to come to no end, since each leads to another that is not at 0, back to
-- itself or in a circle, say, handle_exception never returns, after no number of rounds: it does not come
-- to kthread_kill_current.
pub handle_exception-none :
    {IsFrame : ℕ → Type 0} (words : ℕ → ℕ) (rounds number : ℕ) (regs : ProcessorRegs)
    (control : ControlRegs)
    → IsEndless words IsFrame
    → IsFrame regs.ebp
    → handle_exception rounds words number regs control ≡ none
unfolding handle_exception print_stack_trace
handle_exception-none words rounds number regs control endless here =
    let stuck : print_stack_trace rounds words regs ≡ none =
      rw (trace_loop-none words rounds regs.ebp endless here, print_stack_trace) refl in
    rw (stuck, handle_exception) refl
