-- ===== src/Firmware/Tests.antt =====
-- A firmware version at concrete values.
use meshprovision.Firmware.{Version}

abbrev version : Version
version = record { major = 2; minor = 8; patch = 12 }
