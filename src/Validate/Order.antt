-- ===== src/Validate/Order.antt =====
-- Bounds in order, and numbers within them.
use lur.Base.{Bool, true, false, not, ◌&&◌, Option, none, some}
use lur.Validate.Schema.{Limits}

module _ {T : Type 0} (lt : T → T → Bool) where
  abbrev pub below : Option T → T → Bool
  below none n = false
  below (some lo) n = lt n lo

  abbrev pub above : Option T → T → Bool
  above none n = false
  above (some hi) n = lt hi n

  -- Neither below the minimum nor above the maximum.
  abbrev pub within : Limits T → T → Bool
  within l n = not (below l.min n) && not (above l.max n)

  -- The minimum is not above the maximum.
  abbrev pub ordered : Option T → Option T → Bool
  ordered (some lo) (some hi) = not (lt hi lo)
  ordered (some lo) none = true
  ordered none hi = true
