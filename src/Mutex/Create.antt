-- ===== src/Mutex/Create.antt =====
-- kmutex_create and kmutex_destroy of arch/ia32/mutex.c: a mutex has a page of its own, which is not cleared.
use rjk.Base.{ℕ, Option, false}
use rjk.Memory.Virtual.{Space}
use rjk.Memory.Virtual.Allocate.{kmemory_virtual_page_allocate}
use rjk.Memory.Virtual.Unallocate.{kmemory_virtual_page_unallocate}

unfoldable pub kmutex_create : (rounds : ℕ) → Space → Option (ℕ × Space)
unfolding kmemory_virtual_page_allocate
kmutex_create rounds s = kmemory_virtual_page_allocate rounds s 1 false

unfoldable pub kmutex_destroy : Space → (mutex : ℕ) → Space
unfolding kmemory_virtual_page_unallocate
kmutex_destroy s mutex = kmemory_virtual_page_unallocate s mutex
