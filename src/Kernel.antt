-- ===== src/Kernel.antt =====
-- The state of the kernel: the process control blocks of pcb.h, the synchronisation objects of
-- sync.h, and the globals of pcb.c, sync.c and frames.c, with the commands that read and write
-- them. A pointer to a PCB or to an object is its number, and 0 is NULL; `none` is memory that is
-- not allocated, and an access to it is a fault.
mod State
mod Layout
mod Access
mod External
pub use State.*
pub use Layout.*
pub use Access.*
pub use External.*
