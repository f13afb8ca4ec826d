-- ===== src/Pal.antt =====
-- include/sys/pal.h: what the kernel uses of the processor it runs on.
pub mod Aarch64
pub mod Amd64
pub mod Examples

-- The state of the processor is the platform's.
pub record Pal : Type 1 where
  pub Core : Type 0
  pub global_irq_disable : Core → Core
  pub global_irq_enable : Core → Core
  pub halt : Core → Core

-- The end of panic, and the branch of fb_assert without a framebuffer.
unfoldable pub stop : (p : Pal) → p.Core → p.Core
stop p c = p.halt (p.global_irq_disable c)
