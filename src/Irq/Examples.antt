-- ===== src/Irq/Examples.antt =====
-- IRQ 8, of the second controller, through the functions of arch/ia32/irq.c.
use rjk.Base.{
  ◌⊎◌, inl, inr, none, ap, ℕ, ◌≡◌, ◌≢◌, ◌↔◌, refl, true, false, [], ◌∷◌, ◌++◌, some, ◌==◌,
  if◌then◌else◌, arith, test_bit, set_bit, clear_bit,
}
use rjk.Irq.{Irqs, kirq_init, kirq_assign_irq, kirq_unassign_irq, acknowledge, handle_irq, call}
use rjk.Irq.{init_idt, kirq_enable_all, kirq_disable_all}
use rjk.Irq.Exception.{
  ProcessorRegs, ControlRegs, Frames, stack_word, frame_line, exception_lines, handle_exception,
  handle_exception_lem, IsEndless, handle_exception-none,
}
use rjk.Irq.Mask.{IsSynced}
use rjk.Irq.Handlers.{
  IsDriver, Reach, booted, assigned, handled, Reach-IsSynced, assign_unassign_lem, handle_irq_lem,
}

abbrev boot : Irqs
boot = record { handler = λ q. 0; cached_irq_mask = 0; ports = [] }

-- A handler that asks for a thread switch.
abbrev driver : Irqs → ℕ × Irqs
driver s = (1, s)

driver-IsDriver : IsDriver driver
driver-IsDriver = record {
  keeps_mask = λ s. refl;
  keeps_first = λ s. refl;
  keeps_second = λ s. refl;
}

abbrev ready : Irqs
ready = (kirq_assign_irq 8 777 (kirq_init boot)).1

ready-Reach : Reach ready
ready-Reach = assigned 8 777 (booted boot)

Reach-IsSynced_example : IsSynced (handle_irq driver 40 ready).2
Reach-IsSynced_example = Reach-IsSynced (handled driver driver-IsDriver 8 (omega arith) ready-Reach)

assign_unassign_lem_test :
    let (rc, t) = kirq_assign_irq 8 777 boot in
    (rc ≡ 1)
    × (t.handler 40 ≡ 777)
    × (test_bit t.cached_irq_mask 8 ≡ false)
    × (kirq_assign_irq 8 888 t ≡ (0, t))
    × ((q : ℕ) → (kirq_unassign_irq 8 t).handler q ≡ 0)
    × (test_bit (kirq_unassign_irq 8 t).cached_irq_mask 8 ≡ true)
assign_unassign_lem_test = assign_unassign_lem boot 8 777 888 (omega arith) refl (omega arith)

abbrev one_handler : Irqs
one_handler = record boot { handler = λ q. 777 }

handle_irq_lem_example :
    let (action, yields, t) = handle_irq driver 40 one_handler in
    (action ≡ call 777 8)
    × (test_bit (acknowledge 8 one_handler).cached_irq_mask 8 ≡ true)
    × ((yields ≡ true) ↔ (◌≢◌ {A = ℕ} 1 0))
    × (test_bit t.cached_irq_mask 8 ≡ false)
    × (test_bit t.cached_irq_mask 3 ≡ test_bit 0 3)
handle_irq_lem_example =
    handle_irq_lem driver driver-IsDriver one_handler 8 (omega arith) (omega arith) 3 (omega arith)

-- A frame at 0x100, whose next is at 0x200, which is the last.
abbrev stack_words : ℕ → ℕ
stack_words w = if w == 0x40 then 0x200 else if w == 0x80 then 0 else w

abbrev stopped : ProcessorRegs
stopped = record {
  esp = 0xF0;
  ebp = 0x100;
  esi = 0;
  edi = 0;
  edx = 0;
  ecx = 0;
  ebx = 0;
  eax = 0;
  error = 0;
  eip = 0x1234;
  cs = 0x10;
  eflags = 0x202;
}

abbrev control : ControlRegs
control = record { cr0 = 0x80000001; cr2 = 0; cr3 = 0x5000 }

two-Frames : Frames stack_words 0x100 (0x100 ∷ [])
two-Frames =
    Frames.frame 0x100 [] (omega arith) (omega arith) (Frames.last 0x200 (omega arith) refl)

handle_exception_lem_test :
    handle_exception 2 stack_words 13 stopped control
    ≡ some (
        exception_lines 13 stopped control
        ++ (("Stack Trace\n", []) ∷ frame_line stack_words 0x100 ∷ []))
handle_exception_lem_test =
    handle_exception_lem stack_words 2 13 stopped control (0x100 ∷ []) two-Frames (omega arith)

frame_test :
    frame_line stack_words 0x100
    ≡ ("%0.8x %0.8x %0.8x %0.8x %0.8x\n", 0x41 ∷ 0x42 ∷ 0x43 ∷ 0x44 ∷ 0x45 ∷ [])
unfolding frame_line
frame_test = refl

idt_test : init_idt 49 0 (λ w. 0) 162 ≡ 0x8E00
unfolding init_idt
idt_test = refl

enabled_test : kirq_disable_all (kirq_enable_all 2) ≡ 2
unfolding kirq_enable_all kirq_disable_all set_bit clear_bit test_bit
enabled_test = refl

-- Two frames that lead to each other.
abbrev round_words : ℕ → ℕ
round_words w = if w == 0x40 then 0x200 else if w == 0x80 then 0x100 else w

abbrev IsFrame : ℕ → Type 0
IsFrame stack = (stack ≡ 0x100) ⊎ (stack ≡ 0x200)

round-IsEndless : IsEndless round_words IsFrame
round-IsEndless = record {
  not_null = λ stack h. elim h [ inl e ↦ omega arith | inr e ↦ omega arith ];
  leads_on = λ stack h. elim h [
    | inl e ↦ inr (ap (λ (x : ℕ). stack_word round_words x 0) e)
    | inr e ↦ inl (ap (λ (x : ℕ). stack_word round_words x 0) e)
  ];
}

handle_exception-none_example : handle_exception 50 round_words 13 stopped control ≡ none
handle_exception-none_example =
    handle_exception-none round_words 50 13 stopped control round-IsEndless (inl refl)
