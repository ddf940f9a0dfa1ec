-- ===== src/Interface/Prototypes.antt =====
-- arch/ia32/include/internal.h: the prototypes of the functions, which their definitions are compiled
-- with.
use rjk.Base.{List, [], ◌∷◌, ◌++◌}
use rjk.Interface.Names.{
  Function, Signature, sig, variadic, void, char, va_list, kint, kint32, kint64, kuint, kuint8,
  kuint16, kuint32, kuint64, kmutex, kcondition, volatile, pointer, function,
}

abbrev pub kernel_prototypes : List (Function × Signature)
kernel_prototypes =
    (Function.kinterface_check_version, sig kuint (kuint ∷ kuint ∷ []))
    ∷ (Function.kinterface_kernel_info, sig (pointer (pointer kuint8)) [])
    ∷ []

abbrev pub module_prototypes : List (Function × Signature)
module_prototypes =
    (Function.kmodule_get, sig kuint (kuint ∷ (pointer (pointer kuint8)) ∷ (pointer kuint) ∷ []))
    ∷ (Function.kmodule_free, sig void [])
    ∷ []

abbrev pub atomic_prototypes : List (Function × Signature)
atomic_prototypes =
    (Function.katomic_get, sig kuint ((pointer (volatile kuint)) ∷ []))
    ∷ (Function.katomic_set, sig void ((pointer (volatile kuint)) ∷ kuint ∷ []))
    ∷ (Function.katomic_inc, sig void ((pointer (volatile kuint)) ∷ []))
    ∷ (Function.katomic_dec, sig void ((pointer (volatile kuint)) ∷ []))
    ∷ (Function.katomic_add, sig void ((pointer (volatile kuint)) ∷ kuint ∷ []))
    ∷ (Function.katomic_sub, sig void ((pointer (volatile kuint)) ∷ kuint ∷ []))
    ∷ (Function.katomic_inc_and_test, sig kuint ((pointer (volatile kuint)) ∷ []))
    ∷ (Function.katomic_dec_and_test, sig kuint ((pointer (volatile kuint)) ∷ []))
    ∷ (Function.katomic_compare, sig kuint ((pointer (volatile kuint)) ∷ kuint ∷ []))
    ∷ (
      Function.katomic_compare_and_set_if_equal,
      sig kuint ((pointer (volatile kuint)) ∷ kuint ∷ kuint ∷ []),
    )
    ∷ (Function.katomic_mask_set, sig void ((pointer (volatile kuint)) ∷ kuint ∷ []))
    ∷ (Function.katomic_mask_clear, sig void ((pointer (volatile kuint)) ∷ kuint ∷ []))
    ∷ (Function.katomic_bit_get, sig kuint ((pointer (volatile kuint)) ∷ kuint ∷ []))
    ∷ (Function.katomic_bit_set, sig void ((pointer (volatile kuint)) ∷ kuint ∷ []))
    ∷ (Function.katomic_bit_reset, sig void ((pointer (volatile kuint)) ∷ kuint ∷ []))
    ∷ (Function.katomic_bit_test_and_set, sig kuint ((pointer (volatile kuint)) ∷ kuint ∷ []))
    ∷ (Function.katomic_bit_test_and_reset, sig kuint ((pointer (volatile kuint)) ∷ kuint ∷ []))
    ∷ []

abbrev pub print_prototypes : List (Function × Signature)
print_prototypes =
    (Function.kprintf, variadic kint ((pointer char) ∷ []))
    ∷ (Function.kvprintf, sig kint ((pointer char) ∷ va_list ∷ []))
    ∷ (Function.kvsprintf, sig kint ((pointer kuint8) ∷ (pointer char) ∷ va_list ∷ []))
    ∷ []

abbrev pub irq_prototypes : List (Function × Signature)
irq_prototypes =
    (Function.kirq_assign_irq, sig kuint (kuint ∷ (function kuint kuint) ∷ []))
    ∷ (Function.kirq_unassign_irq, sig void (kuint ∷ []))
    ∷ (Function.kirq_enable_irq, sig void (kuint ∷ []))
    ∷ (Function.kirq_disable_irq, sig void (kuint ∷ []))
    ∷ (Function.kirq_enable_all, sig void [])
    ∷ (Function.kirq_disable_all, sig void [])
    ∷ []

abbrev pub port_prototypes : List (Function × Signature)
port_prototypes =
    (Function.kioport_in_kuint, sig kuint (kuint ∷ []))
    ∷ (Function.kioport_in_kuint8, sig kuint8 (kuint ∷ []))
    ∷ (Function.kioport_in_kuint16, sig kuint16 (kuint ∷ []))
    ∷ (Function.kioport_in_kuint32, sig kuint32 (kuint ∷ []))
    ∷ (Function.kioport_in_kuint64, sig kuint64 (kuint ∷ []))
    ∷ (Function.kioport_out_kuint, sig void (kuint ∷ kuint ∷ []))
    ∷ (Function.kioport_out_kuint8, sig void (kuint ∷ kuint8 ∷ []))
    ∷ (Function.kioport_out_kuint16, sig void (kuint ∷ kuint16 ∷ []))
    ∷ (Function.kioport_out_kuint32, sig void (kuint ∷ kuint32 ∷ []))
    ∷ (Function.kioport_out_kuint64, sig void (kuint ∷ kuint64 ∷ []))
    ∷ (Function.kioport_in_kuint_array, sig void (kuint ∷ (pointer kuint) ∷ kuint ∷ []))
    ∷ (Function.kioport_in_kuint8_array, sig void (kuint ∷ (pointer kuint8) ∷ kuint ∷ []))
    ∷ (Function.kioport_in_kuint16_array, sig void (kuint ∷ (pointer kuint16) ∷ kuint ∷ []))
    ∷ (Function.kioport_in_kuint32_array, sig void (kuint ∷ (pointer kuint32) ∷ kuint ∷ []))
    ∷ (Function.kioport_in_kuint64_array, sig void (kuint ∷ (pointer kuint64) ∷ kuint ∷ []))
    ∷ (Function.kioport_out_kuint_array, sig void (kuint ∷ (pointer kuint) ∷ kuint ∷ []))
    ∷ (Function.kioport_out_kuint8_array, sig void (kuint ∷ (pointer kuint8) ∷ kuint ∷ []))
    ∷ (Function.kioport_out_kuint16_array, sig void (kuint ∷ (pointer kuint16) ∷ kuint ∷ []))
    ∷ (Function.kioport_out_kuint32_array, sig void (kuint ∷ (pointer kuint32) ∷ kuint ∷ []))
    ∷ (Function.kioport_out_kuint64_array, sig void (kuint ∷ (pointer kuint64) ∷ kuint ∷ []))
    ∷ []

abbrev pub spinlock_prototypes : List (Function × Signature)
spinlock_prototypes =
    (Function.kspinlock_lock, sig void ((pointer (volatile kuint)) ∷ []))
    ∷ (Function.kspinlock_unlock, sig void ((pointer (volatile kuint)) ∷ []))
    ∷ (
      Function.kspinlock_lock_irqsave,
      sig void ((pointer (volatile kuint)) ∷ (pointer kuint) ∷ []),
    )
    ∷ (
      Function.kspinlock_unlock_irqrestore,
      sig void ((pointer (volatile kuint)) ∷ (pointer kuint) ∷ []),
    )
    ∷ []

abbrev pub rwlock_prototypes : List (Function × Signature)
rwlock_prototypes =
    (Function.krwlock_read_lock, sig void ((pointer (volatile kuint)) ∷ []))
    ∷ (Function.krwlock_read_unlock, sig void ((pointer (volatile kuint)) ∷ []))
    ∷ (Function.krwlock_write_lock, sig void ((pointer (volatile kuint)) ∷ []))
    ∷ (Function.krwlock_write_unlock, sig void ((pointer (volatile kuint)) ∷ []))
    ∷ []

abbrev pub thread_prototypes : List (Function × Signature)
thread_prototypes =
    (
      Function.kthread_create,
      sig kuint ((function void (pointer void)) ∷ (pointer void) ∷ kuint ∷ kuint ∷ []),
    )
    ∷ (Function.kthread_current, sig kuint [])
    ∷ (Function.kthread_yield, sig void [])
    ∷ (Function.kthread_kill, sig void (kuint ∷ []))
    ∷ (Function.kthread_suspend, sig void (kuint ∷ []))
    ∷ (Function.kthread_resume, sig void (kuint ∷ []))
    ∷ (Function.kthread_sleep, sig void (kuint ∷ kint64 ∷ kint32 ∷ []))
    ∷ (Function.kthread_priority_set, sig void (kuint ∷ kint ∷ []))
    ∷ (Function.kthread_priority_get, sig kint (kuint ∷ []))
    ∷ (Function.kthread_key_set, sig (pointer void) (kuint ∷ (pointer void) ∷ []))
    ∷ (Function.kthread_key_get, sig (pointer void) (kuint ∷ []))
    ∷ []

abbrev pub time_prototypes : List (Function × Signature)
time_prototypes =
    (Function.ktime_get, sig void ((pointer kint64) ∷ (pointer kint32) ∷ []))
    ∷ (Function.ktime_set, sig void (kint64 ∷ kint32 ∷ []))
    ∷ []

abbrev pub timer_prototypes : List (Function × Signature)
timer_prototypes =
    (
      Function.ktimer_add,
      sig kuint ((function void (pointer void)) ∷ (pointer void) ∷ kint64 ∷ kint32 ∷ []),
    )
    ∷ (Function.ktimer_remove, sig void (kuint ∷ []))
    ∷ []

abbrev pub linear_prototypes : List (Function × Signature)
linear_prototypes =
    (Function.kmemory_linear_page_allocate, sig kuint (kuint ∷ kuint ∷ []))
    ∷ (Function.kmemory_linear_page_unallocate, sig void (kuint ∷ kuint ∷ []))
    ∷ (Function.kmemory_linear_page_map, sig kuint (kuint ∷ kuint ∷ []))
    ∷ (Function.kmemory_linear_page_unmap, sig void (kuint ∷ kuint ∷ []))
    ∷ (Function.kmemory_linear_read_kuint, sig kuint (kuint ∷ []))
    ∷ (Function.kmemory_linear_read_kuint8, sig kuint8 (kuint ∷ []))
    ∷ (Function.kmemory_linear_read_kuint16, sig kuint16 (kuint ∷ []))
    ∷ (Function.kmemory_linear_read_kuint32, sig kuint32 (kuint ∷ []))
    ∷ (Function.kmemory_linear_read_kuint64, sig kuint64 (kuint ∷ []))
    ∷ (Function.kmemory_linear_write_kuint, sig void (kuint ∷ kuint ∷ []))
    ∷ (Function.kmemory_linear_write_kuint8, sig void (kuint ∷ kuint8 ∷ []))
    ∷ (Function.kmemory_linear_write_kuint16, sig void (kuint ∷ kuint16 ∷ []))
    ∷ (Function.kmemory_linear_write_kuint32, sig void (kuint ∷ kuint32 ∷ []))
    ∷ (Function.kmemory_linear_write_kuint64, sig void (kuint ∷ kuint64 ∷ []))
    ∷ (Function.kmemory_linear_read_kuint_array, sig void (kuint ∷ (pointer kuint) ∷ kuint ∷ []))
    ∷ (Function.kmemory_linear_read_kuint8_array, sig void (kuint ∷ (pointer kuint8) ∷ kuint ∷ []))
    ∷ (
      Function.kmemory_linear_read_kuint16_array,
      sig void (kuint ∷ (pointer kuint16) ∷ kuint ∷ []),
    )
    ∷ (
      Function.kmemory_linear_read_kuint32_array,
      sig void (kuint ∷ (pointer kuint32) ∷ kuint ∷ []),
    )
    ∷ (
      Function.kmemory_linear_read_kuint64_array,
      sig void (kuint ∷ (pointer kuint64) ∷ kuint ∷ []),
    )
    ∷ (Function.kmemory_linear_write_kuint_array, sig void (kuint ∷ (pointer kuint) ∷ kuint ∷ []))
    ∷ (Function.kmemory_linear_write_kuint8_array, sig void (kuint ∷ (pointer kuint8) ∷ kuint ∷ []))
    ∷ (
      Function.kmemory_linear_write_kuint16_array,
      sig void (kuint ∷ (pointer kuint16) ∷ kuint ∷ []),
    )
    ∷ (
      Function.kmemory_linear_write_kuint32_array,
      sig void (kuint ∷ (pointer kuint32) ∷ kuint ∷ []),
    )
    ∷ (
      Function.kmemory_linear_write_kuint64_array,
      sig void (kuint ∷ (pointer kuint64) ∷ kuint ∷ []),
    )
    ∷ []

abbrev pub virtual_prototypes : List (Function × Signature)
virtual_prototypes =
    (Function.kmemory_virtual_page_allocate, sig (pointer void) (kuint ∷ kuint ∷ []))
    ∷ (Function.kmemory_virtual_page_unallocate, sig void ((pointer void) ∷ []))
    ∷ (
      Function.kmemory_virtual_copy,
      sig (pointer void) ((pointer void) ∷ (pointer void) ∷ kuint ∷ []),
    )
    ∷ (Function.kmemory_virtual_fill, sig (pointer void) ((pointer void) ∷ kuint ∷ kuint8 ∷ []))
    ∷ []

abbrev pub processor_prototypes : List (Function × Signature)
processor_prototypes =
    (Function.kprocessor_flags_save, sig void ((pointer kuint) ∷ []))
    ∷ (Function.kprocessor_flags_restore, sig void ((pointer kuint) ∷ []))
    ∷ (Function.kprocessor_byteswap_kuint, sig void ((pointer kuint) ∷ []))
    ∷ (Function.kprocessor_byteswap_kuint8, sig void ((pointer kuint8) ∷ []))
    ∷ (Function.kprocessor_byteswap_kuint16, sig void ((pointer kuint16) ∷ []))
    ∷ (Function.kprocessor_byteswap_kuint32, sig void ((pointer kuint32) ∷ []))
    ∷ (Function.kprocessor_byteswap_kuint64, sig void ((pointer kuint64) ∷ []))
    ∷ []

abbrev pub mutex_prototypes : List (Function × Signature)
mutex_prototypes =
    (Function.kmutex_create, sig (pointer kmutex) [])
    ∷ (Function.kmutex_destroy, sig void ((pointer kmutex) ∷ []))
    ∷ (Function.kmutex_lock, sig kuint ((pointer kmutex) ∷ []))
    ∷ (Function.kmutex_unlock, sig kuint ((pointer kmutex) ∷ []))
    ∷ (Function.kmutex_test, sig kuint ((pointer kmutex) ∷ []))
    ∷ []

abbrev pub condition_prototypes : List (Function × Signature)
condition_prototypes =
    (Function.kcondition_create, sig (pointer kcondition) [])
    ∷ (Function.kcondition_destroy, sig void ((pointer kcondition) ∷ []))
    ∷ (Function.kcondition_signal, sig kuint ((pointer kcondition) ∷ []))
    ∷ (Function.kcondition_broadcast, sig kuint ((pointer kcondition) ∷ []))
    ∷ (Function.kcondition_wait, sig kuint ((pointer kcondition) ∷ (pointer kmutex) ∷ []))
    ∷ (
      Function.kcondition_timedwait,
      sig kuint ((pointer kcondition) ∷ (pointer kmutex) ∷ kint64 ∷ kint32 ∷ []),
    )
    ∷ []

-- The prototypes in their order.
unfoldable pub prototypes : List (Function × Signature)
prototypes =
    kernel_prototypes
    ++ (module_prototypes
        ++ (atomic_prototypes
            ++ (print_prototypes
                ++ (irq_prototypes
                    ++ (port_prototypes
                        ++ (spinlock_prototypes
                            ++ (rwlock_prototypes
                                ++ (thread_prototypes
                                    ++ (time_prototypes
                                        ++ (timer_prototypes
                                            ++ (linear_prototypes
                                                ++ (virtual_prototypes
                                                    ++ (processor_prototypes
                                                        ++ (mutex_prototypes
                                                            ++ (condition_prototypes)))))))))))))))
