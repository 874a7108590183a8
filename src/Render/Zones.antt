-- ===== src/Render/Zones.antt =====
-- The columns of kernel space.
use fuddy_duddy.Prelude.{◌+◌, ◌≤◌, ◌<◌, ◌⊎◌, refl, arith, ◌≢◌}
use fuddy_duddy.Subsystems.{Subsystem, file, memory, process, net, other}
use fuddy_duddy.Render.{width, zone_bounds, zone_center}

-- Every subsystem's column lies within the width of the screen and holds the subsystem's center.
pub zone_center-in :
    (sub : Subsystem)
    → let (x, w) = zone_bounds sub in
      (x ≤ zone_center sub) × (zone_center sub < x + w) × (x + w ≤ width)
unfolding zone_center zone_bounds
zone_center-in file = omega arith
zone_center-in memory = omega arith
zone_center-in process = omega arith
zone_center-in net = omega arith
zone_center-in other = omega arith

-- The columns of two different subsystems, neither of them OTHER, do not overlap.
pub zones_disjoint :
    (a b : Subsystem)
    → a ≢ b
    → a ≢ other
    → b ≢ other
    → ((zone_bounds a).0 + (zone_bounds a).1 ≤ (zone_bounds b).0)
      ⊎ ((zone_bounds b).0 + (zone_bounds b).1 ≤ (zone_bounds a).0)
unfolding zone_bounds
zones_disjoint file b h g k = ground arith
zones_disjoint memory b h g k = ground arith
zones_disjoint process b h g k = ground arith
zones_disjoint net b h g k = ground arith
zones_disjoint other b h g k = absurd (g refl)
