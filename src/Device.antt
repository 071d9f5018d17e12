-- ===== src/Device.antt =====
-- The block device of p4/device.c: the geometry, the opening, and reads and writes of whole blocks. The
-- system calls are parameters: what they answer is an argument of the functions.
pub mod Geometry
pub mod Tests
use operating_systems_cs.Common.{
  ℕ, ◌+◌, ◌-◌, ◌*◌, ◌/◌, ◌%◌, ◌^◌, Bool, true, false, if◌then◌else◌, ◌==◌, ◌||◌, Option, none, some,
}
use operating_systems_cs.Common.Text.{CString}

-- What `fstat` and the two calls of `ioctl` say of a file.
pub data Stat : Type 0 where
  no_stat : Stat
  regular : ℕ → ℕ → Stat
  block_device : Option ℕ → Option ℕ → Stat
  other_file : Stat

-- `struct device`
pub record Device : Type 0 where
  pub fd : ℕ
  pub size : ℕ
  pub block : ℕ

-- The end of `geometry`, on the two numbers as a `uint64_t` and a `uint32_t`.
pub set_geometry : Device → ℕ → ℕ → Option Device
set_geometry device u64 u32 =
    if (u32 == 0) || (u64 == 0)
    then none
    else some (record device { size = (u64 / u32 * u32) % 2 ^ 64; block = u32 })

pub geometry : Device → Stat → Option Device
geometry device no_stat = none
geometry device (regular st_size st_blksize) =
    set_geometry device (st_size % 2 ^ 64) (st_blksize % 2 ^ 32)
geometry device (block_device none size) = none
geometry device (block_device (some bytes) none) = none
geometry device (block_device (some bytes) (some size)) =
    set_geometry device (bytes % 2 ^ 64) (size % 2 ^ 32)
geometry device other_file = none

-- How `device_open` ends: with a device, or with the null pointer, and then with the descriptor that
-- stays open, if one does.
pub data Opened : Type 0 where
  opened : Device → Opened
  refused : Option ℕ → Opened

-- `device_close`: whether the descriptor is closed; what is freed is left out.
pub closes : ℕ → Bool
closes fd = if fd == 0 then false else true

pub close_device : ℕ → Opened
close_device fd = refused (if closes fd then none else some fd)

-- `malloc` gives memory or not, and `open` a descriptor or -1.
pub device_open : Bool → Option ℕ → Stat → Opened
device_open memory fd stat = elim memory [
  | false ↦ refused none
  | true ↦ elim fd [
    | none ↦ refused none
    | some n ↦ elim (n == 0) [
      | true ↦ close_device n
      | false ↦ elim (geometry (record { fd = n; size = 0; block = 0 }) stat) [
        | some device ↦ opened device
        | none ↦ close_device n
      ]
    ]
  ]
]

-- The calls of `pread` and `pwrite` on an open file: the number of bytes, or -1, with the bytes or the
-- file afterwards.
pub record File : Type 1 where
  pub Disk : Type 0
  pub pread : Disk → ℕ → ℕ → Option ℕ × CString
  pub pwrite : Disk → CString → ℕ → ℕ → Option ℕ × Disk

-- Whether the number, as a `uint64_t`, is the length.
pub all_bytes : Option ℕ → ℕ → Bool
all_bytes none len = len == 2 ^ 64 - 1
all_bytes (some n) len = len == n

module _ (file : File) where
  pub device_read : file.Disk → ℕ → ℕ → Option CString
  device_read disk off len =
      let (n, buf) = file.pread disk len off in if all_bytes n len then some buf else none

  pub device_write : file.Disk → CString → ℕ → ℕ → Bool × file.Disk
  device_write disk buf off len =
      let (n, disk') = file.pwrite disk buf len off in (all_bytes n len, disk')

pub device_size : Device → ℕ
device_size device = device.size

pub device_block : Device → ℕ
device_block device = device.block
