-- ===== src/Arch.antt =====
-- The start of the kernel: arch/riscv/kernel.c and arch/arm64/kernel.c, which differ in the address
-- of the UART and in the line that names the hart.
pub mod Console
pub mod Start
