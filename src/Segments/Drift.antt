-- ===== src/Segments/Drift.antt =====
-- No entry has drifted from where its id began.
use rises.Base.{◌≡◌, Bool, false, All}
use rises.Segments.{Entry, Tracker}

module _ {Shape : Type 0} (drifted : Shape → Shape → Bool) where
  abbrev pub IsNear : Entry Shape → Type 0
  IsNear e = drifted e.shape e.origin ≡ false

  abbrev pub AllNear : Tracker Shape → Type 0
  AllNear t = All IsNear t.previous × All IsNear t.current
