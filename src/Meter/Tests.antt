-- ===== src/Meter/Tests.antt =====
-- The meter's theorems at concrete counts.
use lortnoc_tahc.Base.{false}
use lortnoc_tahc.Meter.{Meter}

abbrev eight : Meter
eight = record { sends = 8; paid = false }
