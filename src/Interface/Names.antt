-- ===== src/Interface/Names.antt =====
-- The functions of the kernel interface by name, in the sections of include/kinterface.h, and the
-- C types that their declarations use.
use rjk.Base.{Bool, true, false, List}

pub data Function : Type 0 where
  kinterface_check_version kinterface_kernel_info : Function
  kmodule_get kmodule_free : Function
  katomic_get katomic_set katomic_inc katomic_dec katomic_add katomic_sub : Function
  katomic_inc_and_test katomic_dec_and_test katomic_compare : Function
  katomic_compare_and_set_if_equal katomic_mask_set katomic_mask_clear katomic_bit_get : Function
  katomic_bit_set katomic_bit_reset katomic_bit_test_and_set katomic_bit_test_and_reset : Function
  kprintf kvprintf kvsprintf : Function
  kirq_assign_irq kirq_unassign_irq kirq_enable_irq kirq_disable_irq kirq_enable_all : Function
  kirq_disable_all : Function
  kioport_in_kuint kioport_in_kuint8 kioport_in_kuint16 kioport_in_kuint32 : Function
  kioport_in_kuint64 kioport_out_kuint kioport_out_kuint8 kioport_out_kuint16 : Function
  kioport_out_kuint32 kioport_out_kuint64 kioport_in_kuint_array : Function
  kioport_in_kuint8_array kioport_in_kuint16_array kioport_in_kuint32_array : Function
  kioport_in_kuint64_array kioport_out_kuint_array kioport_out_kuint8_array : Function
  kioport_out_kuint16_array kioport_out_kuint32_array kioport_out_kuint64_array : Function
  kspinlock_lock kspinlock_unlock kspinlock_lock_irqsave kspinlock_unlock_irqrestore : Function
  krwlock_read_lock krwlock_read_unlock krwlock_write_lock krwlock_write_unlock : Function
  kthread_create kthread_current kthread_yield kthread_kill kthread_suspend : Function
  kthread_resume kthread_sleep kthread_priority_set kthread_priority_get : Function
  kthread_key_set kthread_key_get : Function
  ktime_get ktime_set : Function
  ktimer_add ktimer_remove : Function
  kmemory_linear_page_allocate kmemory_linear_page_unallocate kmemory_linear_page_map : Function
  kmemory_linear_page_unmap kmemory_linear_read_kuint kmemory_linear_read_kuint8 : Function
  kmemory_linear_read_kuint16 kmemory_linear_read_kuint32 kmemory_linear_read_kuint64 : Function
  kmemory_linear_write_kuint kmemory_linear_write_kuint8 kmemory_linear_write_kuint16 : Function
  kmemory_linear_write_kuint32 kmemory_linear_write_kuint64 : Function
  kmemory_linear_read_kuint_array kmemory_linear_read_kuint8_array : Function
  kmemory_linear_read_kuint16_array kmemory_linear_read_kuint32_array : Function
  kmemory_linear_read_kuint64_array kmemory_linear_write_kuint_array : Function
  kmemory_linear_write_kuint8_array kmemory_linear_write_kuint16_array : Function
  kmemory_linear_write_kuint32_array kmemory_linear_write_kuint64_array : Function
  kmemory_virtual_page_allocate kmemory_virtual_page_unallocate kmemory_virtual_copy : Function
  kmemory_virtual_fill : Function
  kprocessor_flags_save kprocessor_flags_restore kprocessor_byteswap_kuint : Function
  kprocessor_byteswap_kuint8 kprocessor_byteswap_kuint16 kprocessor_byteswap_kuint32 : Function
  kprocessor_byteswap_kuint64 : Function
  kmutex_create kmutex_destroy kmutex_lock kmutex_unlock kmutex_test : Function
  kcondition_create kcondition_destroy kcondition_signal kcondition_broadcast : Function
  kcondition_wait kcondition_timedwait : Function

-- `function r p` is a pointer to a function from one `p` to an `r`.
pub data CType : Type 0 where
  void char va_list kint kint32 kint64 kuint kuint8 kuint16 kuint32 kuint64 kmutex kcondition :
      CType
  volatile pointer : CType → CType
  function : CType → CType → CType

pub record Signature : Type 0 where
  pub result : CType
  pub parameters : List CType
  pub more : Bool

abbrev pub sig : CType → List CType → Signature
sig r ps = record { result = r; parameters = ps; more = false }

-- A declaration that ends in `...`.
abbrev pub variadic : CType → List CType → Signature
variadic r ps = record { result = r; parameters = ps; more = true }
