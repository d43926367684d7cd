-- ===== src/Jv/Extrema/Tests.antt =====
-- The theorem of Min and Max at a concrete call.
use gobase.Base.{nat_comparable, bool_comparable, list_comparable}
use gobase.Base.Ordered.{nat_ordered}
