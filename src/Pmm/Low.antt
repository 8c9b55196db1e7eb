-- ===== src/Pmm/Low.antt =====
-- src/pmm.c: `pmm_init` for a memory size below the start of the managed pages.
use kfs.Pmm.{Pmm}
