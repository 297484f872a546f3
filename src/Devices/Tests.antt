-- ===== src/Devices/Tests.antt =====
-- The device registry of src/core/device/Registry.js on small files.
use canvas_server.Prelude.{
  ◌≡◌, refl, inr, true, Option, none, some, [], codes, lookup, insert, text_key,
}
use canvas_server.Devices.{
  Device, Devices, Input, given, require_device_id, build_device_record, upsert_device,
}
use canvas_server.Devices.Reads.{IsWritten, upsert_device-IsWritten}

abbrev laptop : Input
laptop = record {
  device_id = some (codes " d1 ");
  name = none;
  description = given (some (codes " work "));
  platform = some (codes "linux");
  arch = none;
  type = none;
  username = some (codes "al");
  hostname = some (codes "box");
  fqdn = none;
  alias = none;
  created_at = none;
  last_seen = none;
}

abbrev laptop_device : Device
laptop_device = build_device_record (codes "t2") (codes "d1") laptop none

abbrev laptop_file : Option Devices
laptop_file = some (insert (codes "d1") laptop_device [])

laptop-name : laptop_device.name ≡ codes "box"
unfolding build_device_record
laptop-name = refl

laptop-alias : laptop_device.alias ≡ some (codes "al@box")
unfolding build_device_record
laptop-alias = refl

laptop_run : upsert_device (codes "t2") true laptop none ≡ (inr laptop_device, laptop_file)
unfolding upsert_device require_device_id lookup
laptop_run = refl

upsert_device-IsWritten_example : IsWritten laptop_device none laptop_file
upsert_device-IsWritten_example =
    upsert_device-IsWritten (codes "t2") laptop none laptop_file laptop_device laptop_run
