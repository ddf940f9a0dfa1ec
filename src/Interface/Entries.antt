-- ===== src/Interface/Entries.antt =====
-- arch/ia32/internal.c: the initialiser of `_kinterface`, which fills the members by position.
use rjk.Base.{List, [], ◌∷◌, ◌++◌}
use rjk.Interface.Names.{Function}

abbrev pub kernel_entries : List Function
kernel_entries = Function.kinterface_check_version ∷ Function.kinterface_kernel_info ∷ []

abbrev pub module_entries : List Function
module_entries = Function.kmodule_get ∷ Function.kmodule_free ∷ []

abbrev pub atomic_entries : List Function
atomic_entries =
    Function.katomic_get ∷ Function.katomic_set ∷ Function.katomic_inc ∷ Function.katomic_dec
    ∷ Function.katomic_add ∷ Function.katomic_sub ∷ Function.katomic_dec_and_test
    ∷ Function.katomic_inc_and_test ∷ Function.katomic_compare
    ∷ Function.katomic_compare_and_set_if_equal ∷ Function.katomic_mask_set
    ∷ Function.katomic_mask_clear ∷ Function.katomic_bit_get ∷ Function.katomic_bit_set
    ∷ Function.katomic_bit_reset ∷ Function.katomic_bit_test_and_set
    ∷ Function.katomic_bit_test_and_reset ∷ []

abbrev pub print_entries : List Function
print_entries = Function.kprintf ∷ Function.kvprintf ∷ Function.kvsprintf ∷ []

abbrev pub irq_entries : List Function
irq_entries =
    Function.kirq_assign_irq ∷ Function.kirq_unassign_irq ∷ Function.kirq_enable_irq
    ∷ Function.kirq_disable_irq ∷ Function.kirq_enable_all ∷ Function.kirq_disable_all ∷ []

abbrev pub port_entries : List Function
port_entries =
    Function.kioport_in_kuint ∷ Function.kioport_in_kuint8 ∷ Function.kioport_in_kuint16
    ∷ Function.kioport_in_kuint32 ∷ Function.kioport_in_kuint64 ∷ Function.kioport_out_kuint
    ∷ Function.kioport_out_kuint8 ∷ Function.kioport_out_kuint16 ∷ Function.kioport_out_kuint32
    ∷ Function.kioport_out_kuint64 ∷ Function.kioport_in_kuint_array
    ∷ Function.kioport_in_kuint8_array ∷ Function.kioport_in_kuint16_array
    ∷ Function.kioport_in_kuint32_array ∷ Function.kioport_in_kuint64_array
    ∷ Function.kioport_out_kuint_array ∷ Function.kioport_out_kuint8_array
    ∷ Function.kioport_out_kuint16_array ∷ Function.kioport_out_kuint32_array
    ∷ Function.kioport_out_kuint64_array ∷ []

abbrev pub spinlock_entries : List Function
spinlock_entries =
    Function.kspinlock_lock ∷ Function.kspinlock_unlock ∷ Function.kspinlock_lock_irqsave
    ∷ Function.kspinlock_unlock_irqrestore ∷ []

abbrev pub rwlock_entries : List Function
rwlock_entries =
    Function.krwlock_read_lock ∷ Function.krwlock_read_unlock ∷ Function.krwlock_write_lock
    ∷ Function.krwlock_write_unlock ∷ []

abbrev pub thread_entries : List Function
thread_entries =
    Function.kthread_create ∷ Function.kthread_current ∷ Function.kthread_yield
    ∷ Function.kthread_kill ∷ Function.kthread_suspend ∷ Function.kthread_resume
    ∷ Function.kthread_sleep ∷ Function.kthread_priority_set ∷ Function.kthread_priority_get
    ∷ Function.kthread_key_set ∷ Function.kthread_key_get ∷ []

abbrev pub time_entries : List Function
time_entries = Function.ktime_get ∷ Function.ktime_set ∷ []

abbrev pub timer_entries : List Function
timer_entries = Function.ktimer_add ∷ Function.ktimer_remove ∷ []

abbrev pub linear_entries : List Function
linear_entries =
    Function.kmemory_linear_page_allocate ∷ Function.kmemory_linear_page_unallocate
    ∷ Function.kmemory_linear_page_map ∷ Function.kmemory_linear_page_unmap
    ∷ Function.kmemory_linear_read_kuint ∷ Function.kmemory_linear_read_kuint8
    ∷ Function.kmemory_linear_read_kuint16 ∷ Function.kmemory_linear_read_kuint32
    ∷ Function.kmemory_linear_read_kuint64 ∷ Function.kmemory_linear_write_kuint
    ∷ Function.kmemory_linear_write_kuint8 ∷ Function.kmemory_linear_write_kuint16
    ∷ Function.kmemory_linear_write_kuint32 ∷ Function.kmemory_linear_write_kuint64
    ∷ Function.kmemory_linear_read_kuint_array ∷ Function.kmemory_linear_read_kuint8_array
    ∷ Function.kmemory_linear_read_kuint16_array ∷ Function.kmemory_linear_read_kuint32_array
    ∷ Function.kmemory_linear_read_kuint64_array ∷ Function.kmemory_linear_write_kuint_array
    ∷ Function.kmemory_linear_write_kuint8_array ∷ Function.kmemory_linear_write_kuint16_array
    ∷ Function.kmemory_linear_write_kuint32_array ∷ Function.kmemory_linear_write_kuint64_array ∷ []

abbrev pub virtual_entries : List Function
virtual_entries =
    Function.kmemory_virtual_page_allocate ∷ Function.kmemory_virtual_page_unallocate
    ∷ Function.kmemory_virtual_copy ∷ Function.kmemory_virtual_fill ∷ []

abbrev pub processor_entries : List Function
processor_entries =
    Function.kprocessor_flags_save ∷ Function.kprocessor_flags_restore
    ∷ Function.kprocessor_byteswap_kuint ∷ Function.kprocessor_byteswap_kuint8
    ∷ Function.kprocessor_byteswap_kuint16 ∷ Function.kprocessor_byteswap_kuint32
    ∷ Function.kprocessor_byteswap_kuint64 ∷ []

abbrev pub mutex_entries : List Function
mutex_entries =
    Function.kmutex_create ∷ Function.kmutex_destroy ∷ Function.kmutex_lock ∷ Function.kmutex_unlock
    ∷ Function.kmutex_test ∷ []

abbrev pub condition_entries : List Function
condition_entries =
    Function.kcondition_create ∷ Function.kcondition_destroy ∷ Function.kcondition_signal
    ∷ Function.kcondition_broadcast ∷ Function.kcondition_wait ∷ Function.kcondition_timedwait ∷ []

-- The initialiser in its order.
unfoldable pub kinterface_entries : List Function
kinterface_entries =
    kernel_entries
    ++ (module_entries
        ++ (atomic_entries
            ++ (print_entries
                ++ (irq_entries
                    ++ (port_entries
                        ++ (spinlock_entries
                            ++ (rwlock_entries
                                ++ (thread_entries
                                    ++ (time_entries
                                        ++ (timer_entries
                                            ++ (linear_entries
                                                ++ (virtual_entries
                                                    ++ (processor_entries
                                                        ++ (mutex_entries
                                                            ++ (condition_entries)))))))))))))))
