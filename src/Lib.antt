-- ===== src/Lib.antt =====
-- A model of the virtio and other devices that this repository adds to the Spike RISC-V simulator.
--
-- The program. A guest driver reaches a virtio device through loads and stores of its MMIO page
-- (`virtio_base_t` in src/virtio.cc), which become register accesses of the transport: feature and
-- queue selection, queue addresses, interrupt status, and the config space. A write to the notify
-- register makes the transport walk the queue's available ring in guest memory and hand each chain
-- of descriptors to the device's handler, which copies data from and to the chain, puts the chain
-- on the used ring and raises the interrupt. Beside virtio there are iceblk, a block device with
-- latency, and a SiFive UART.
--
-- The files. Cutils: src/cutils.h; Cutils/Text, Cutils/Dbuf: src/cutils.c. Libc: what is used of
-- the C library's strings. Mmu: the simulator's memory unit, a parameter with its laws, and a
-- sample of it. Virtio/Device: the state, reset and initialisation; Virtio/Config,
-- Virtio/Config/Window: the config space; Virtio/Regs, Virtio/Mmio, Virtio/Base: the registers and
-- the bus; Virtio/Copy: copies of guest memory; Virtio/Chain: descriptor chains; Virtio/Notify:
-- rings and notifications; Virtio/Inv: the invariant of a device. Block/File: the file of the
-- block device; Block/Request: its requests. Net: the network device. NineP: the 9P device and its
-- fid table; NineP/Fs: the interface of a file system (src/fs.h), and in NineP/Fs/Laws what the
-- device relies on in one; NineP/Message: the message format; NineP/Path: walks along a path
-- (src/fs.c); NineP/Reply: replies; NineP/Files, NineP/Attrs, NineP/Data: the requests;
-- NineP/Recv: their dispatch and the initialisation (all of src/virtio.cc where no other file is
-- named). Disk: the file system on the host's disk (src/fs_disk.c), its calls in Disk/Walk,
-- Disk/Change, Disk/Setattr and Disk/Contents, as an FSDevice in Disk/Device; Disk/Serving: the
-- two together; Disk/Plugin: the 9P plugin (src/virtio-9p-disk.cc). Iceblk: src/iceblk.cc and
-- src/iceblk.h. Uart: src/sifive_uart.cc and src/sifive_uart.h. Prelude: words, bits, lists and
-- the outcome of a run. A function of the source has its name here; where a loop needs a function
-- of its own, it stands before the function that holds the loop. Each component's Tests apply its
-- theorems to concrete inputs.
--
-- The state. A machine is the device, the guest's memory of any type, and what a device class
-- adds. Operations take and return it; the two callbacks of a device are arguments. A run is done,
-- aborted, a fault (what C leaves undefined, such as an access outside an array), or out of fuel.
-- Words are natural numbers with their wrap-around written out; an `int` is its 32-bit pattern.
-- A device's steps are bus writes, configuration changes, and what its backend does on its own; any
-- change of guest memory may stand between two steps. The network device's backend is a tree of the
-- calls that it makes of the device before it returns.
-- The file system on the disk keeps the host's state, which its system calls change, and all files
-- it has ever allocated; an `FSFile *` is the number of one, and using a freed one is a fault. Behind
-- the FSDevice its state is the outcome of the calls so far.
--
-- Bounds. A walk over a descriptor chain takes fuel, since the guest decides how long it is: more
-- than the number of descriptors is enough. A notification has 2^16 + 1 rounds, enough for every
-- distance of two 16-bit indices. A copy takes its count as fuel, since each round moves a byte,
-- and so does the listing of a directory, whose entries take more than a byte each.
--
-- Not modelled: the host's system calls, which the file system has as a parameter, as the devices
-- have malloc; the plugins and their arguments, but for the setting up of the 9P device; device
-- trees, debugging output, the slirp network stack, threads, writes of guest memory during a step,
-- and traps of the simulator's memory unit.
pub mod Prelude
pub mod Libc
pub mod Cutils
pub mod Mmu
pub mod Virtio
pub mod Block
pub mod Net
pub mod NineP
pub mod Iceblk
pub mod Uart
pub mod Disk
