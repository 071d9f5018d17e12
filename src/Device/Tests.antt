-- ===== src/Device/Tests.antt =====
-- The block device of p4/device.c on a file of 10000 bytes.
use operating_systems_cs.Common.{true, some, ◌≡◌, refl}
use operating_systems_cs.Device.{
  regular, set_geometry, geometry, opened, refused, closes, close_device, device_open,
}
use operating_systems_cs.Device.Geometry.{Opens, device_open-Opens}

device_open-Opens_example :
    Opens true (some 3) (regular 10000 4096) (device_open true (some 3) (regular 10000 4096))
device_open-Opens_example = device_open-Opens true (some 3) (regular 10000 4096)

two_blocks :
    device_open true (some 3) (regular 10000 4096)
    ≡ opened (record { fd = 3; size = 8192; block = 4096 })
unfolding device_open geometry set_geometry
two_blocks = refl

-- The descriptor 0 is refused and stays open.
descriptor_zero : device_open true (some 0) (regular 10000 4096) ≡ refused (some 0)
unfolding device_open close_device closes
descriptor_zero = refl
