-- ===== src/Data/LeaseSet/Tests.antt =====
-- `is_current` at a lease set that has ended.
use ire.Prelude.{ℕ, ◌<◌, ◌≡◌, ◌↔◌, true, [], ◌∷◌, All}
use ire.Data.LeaseSet.{Lease, LeaseSet, HasEnded, is_current, is_current_iff}

abbrev ended : Lease
ended = record { tunnel_gw = []; tid = 1; end_date = 500 }

abbrev lease_set : LeaseSet ℕ
lease_set = record { rest = 0; leases = ended ∷ [] }

is_current_iff_example :
    (is_current 1000 lease_set ≡ true) ↔ ((1 < 1000) × All (HasEnded 1000) (ended ∷ []))
is_current_iff_example = is_current_iff 1000 lease_set
