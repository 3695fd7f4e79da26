-- ===== src/Data/LeaseSet.antt =====
-- `Lease` and `LeaseSet` of src/data/dest.rs. The fields of a lease set that expiry does not read
-- (destination, keys, signature) are one value of a type parameter.
mod Tests
use ire.Prelude.{
  true, ltb→lt, lt→ltb, ℕ, ◌<◌, ◌≡◌, ◌↔◌, Bool, List, [], ◌∷◌, All, arith, ltb, if◌then◌else◌,
}
use ire.Data.{Hash, TunnelId, I2PDate}

pub record Lease : Type 0 where
  pub tunnel_gw : Hash
  pub tid : TunnelId
  pub end_date : I2PDate

pub record LeaseSet (R : Type 0) : Type 0 where
  pub rest : R
  pub leases : List Lease

-- The fold of `is_current`: the latest end date, from `expiry` on.
unfoldable pub latest_end : I2PDate → List Lease → I2PDate
latest_end expiry [] = expiry
latest_end expiry (lease ∷ leases) =
    latest_end (if ltb expiry lease.end_date then lease.end_date else expiry) leases

-- `now` is the system time in milliseconds.
unfoldable pub is_current : {R : Type 0} → I2PDate → LeaseSet R → Bool
unfolding latest_end
is_current now ls = ltb (latest_end 1 ls.leases) now

-- The lease has ended before `now`.
abbrev pub HasEnded : I2PDate → Lease → Type 0
HasEnded now lease = lease.end_date < now

latest_end-lt_iff :
    (expiry now : I2PDate) (leases : List Lease)
    → (latest_end expiry leases < now) ↔ ((expiry < now) × All (HasEnded now) leases)
unfolding latest_end
latest_end-lt_iff expiry now [] = (λ h. (h, tt), λ h. h.0)
latest_end-lt_iff expiry now (lease ∷ leases) =
    let e = if ltb expiry lease.end_date then lease.end_date else expiry in
    let ih = latest_end-lt_iff e now leases in
    (λ h. let s = ih.0 h in (ground arith, (ground arith, s.1)), λ h. ih.1 (ground arith, h.1.1))

-- A lease set counts as current exactly when every one of its leases has ended (and the clock has
-- passed the first millisecond of the epoch).
pub is_current_iff :
    {R : Type 0} (now : I2PDate) (ls : LeaseSet R)
    → (is_current now ls ≡ true) ↔ ((1 < now) × All (HasEnded now) ls.leases)
unfolding is_current
is_current_iff now ls =
    let i = latest_end-lt_iff 1 now ls.leases in (λ h. i.0 (ltb→lt _ _ h), λ h. lt→ltb _ _ (i.1 h))
