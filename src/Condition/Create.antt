-- ===== src/Condition/Create.antt =====
-- kcondition_create and kcondition_destroy of arch/ia32/condition.c: a condition has a page of its own, which is not cleared.
use rjk.Base.{ℕ, Option, false}
use rjk.Memory.Virtual.{Space}
use rjk.Memory.Virtual.Allocate.{kmemory_virtual_page_allocate}
use rjk.Memory.Virtual.Unallocate.{kmemory_virtual_page_unallocate}

unfoldable pub kcondition_create : (rounds : ℕ) → Space → Option (ℕ × Space)
unfolding kmemory_virtual_page_allocate
kcondition_create rounds s = kmemory_virtual_page_allocate rounds s 1 false

unfoldable pub kcondition_destroy : Space → (condition : ℕ) → Space
unfolding kmemory_virtual_page_unallocate
kcondition_destroy s condition = kmemory_virtual_page_unallocate s condition
