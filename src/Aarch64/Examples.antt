-- ===== src/Aarch64/Examples.antt =====
-- Masking interrupts, and the message of an exception.
use vega_os.Base.{◌≡◌, refl}
use vega_os.Aarch64.Daif.{global_irq_enable}
use vega_os.Aarch64.Exceptions.{svc_msg, el1_sp0_sync}

enabled : global_irq_enable 0x3c0 ≡ 0x300
unfolding global_irq_enable
enabled = refl

supervisor_call : el1_sp0_sync 0x5600_0000 ≡ svc_msg
unfolding el1_sp0_sync
supervisor_call = refl
