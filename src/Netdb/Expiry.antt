-- ===== src/Netdb/Expiry.antt =====
-- What the expiry timers of src/netdb/mod.rs leave in the database.
use ire.Prelude.{
  ℕ, ◌<◌, ◌≡◌, ◌↔◌, ◌⊎◌, inl, inr, sym, ◌∙◌, subst, Bool, true, Option, some, arith, bytes_eq,
  Bool-cases, All,
}
use ire.HashMap
use ire.HashMap.{IsDistinct, get-retain, keep, keep-some}
use ire.Data.{Hash}
use ire.Data.LeaseSet.{LeaseSet, HasEnded, is_current, is_current_iff}
use ire.Netdb.{
  RouterInfoOps, Database, expire_router_infos, expire_lease_sets, keeps_router_info, is_fresh,
}
use ire.Netdb.Store.{IsLive}
use ire.Netdb.Invariant.{IsValid}

kept_some :
    {V : Type 0} (p : Hash → V → Bool) (k : Hash) (o : Option V) (v : V)
    → o ≡ some v
    → p k v ≡ true
    → keep p k o ≡ some v
kept_some p k o v e h = rw (e, keep, h)

module _ {RI : Type 0} (ops : RouterInfoOps RI) where
  is_fresh_iff : (now : ℕ) (ri : RI) → (is_fresh ops now ri ≡ true) ↔ IsLive ops now ri
  unfolding is_fresh
  is_fresh_iff now ri =
      (λ h. record { young = ground arith; started = ground arith }, λ l. ground arith)

  keeps_iff :
      (now : ℕ) (est : Hash → Bool) (key : Hash) (ri : RI)
      → key ≡ ops.hash ri
      → (keeps_router_info ops now (some est) key ri ≡ true)
        ↔ ((est key ≡ true) ⊎ IsLive ops now ri)
  unfolding keeps_router_info
  keeps_iff now est key ri own = (to_reason, from_reason)
    where
      to_reason :
          keeps_router_info ops now (some est) key ri ≡ true → (est key ≡ true) ⊎ IsLive ops now ri
      to_reason h = elim (Bool-cases (est (ops.hash ri))) [
        | inl up ↦ inl (rw own up)
        | inr down ↦ inr ((is_fresh_iff now ri).0 (rw (keeps_router_info, down) at h))
      ]

      from_reason :
          (est key ≡ true) ⊎ IsLive ops now ri → keeps_router_info ops now (some est) key ri ≡ true
      from_reason (inl up) =
          let up' = subst (λ k. est k ≡ true) own up in unfold keeps_router_info in rw up'
      from_reason (inr live) =
          let fresh = (is_fresh_iff now ri).1 live in unfold keeps_router_info in ground arith

module _ {RI R : Type 0} (ops : RouterInfoOps RI) where
  -- With the transports at hand, a RouterInfo is left exactly if it was known under the key and the
  -- router is connected or the RouterInfo is live.
  pub expire_router_infos_iff :
      (now : ℕ) (is_established : Hash → Bool) (db : Database RI R) (key : Hash) (ri : RI)
      → IsValid ops db
      → (HashMap.get key (expire_router_infos ops now (some is_established) db).ri_ds ≡ some ri)
        ↔ ((HashMap.get key db.ri_ds ≡ some ri) × ((is_established key ≡ true) ⊎ IsLive ops now ri))
  unfolding expire_router_infos
  expire_router_infos_iff now is_established db key ri v =
      let p = keeps_router_info ops now (some is_established) in
      let kept = get-retain p key db.ri_ds v.distinct in
      (
        λ h.
            let (known, passes) = keep-some p key (HashMap.get key db.ri_ds) ri (sym kept ∙ h) in
            (
              known,
              (keeps_iff ops now is_established key ri (v.genuine key ri known).own_key).0 passes,
            ),
        λ (known, why).
            kept
            ∙ kept_some p key (HashMap.get key db.ri_ds) ri known
                ((keeps_iff ops now is_established key ri (v.genuine key ri known).own_key).1 why),
      )

module _ {RI R : Type 0} where
  -- A lease set is left exactly if it was known under the key, the clock has passed the first
  -- millisecond of the epoch, and every one of its leases has ended.
  pub expire_lease_sets_iff :
      (now : ℕ) (db : Database RI R) (key : Hash) (ls : LeaseSet R)
      → IsDistinct db.ls_ds
      → (HashMap.get key (expire_lease_sets now db).ls_ds ≡ some ls)
        ↔ ((HashMap.get key db.ls_ds ≡ some ls) × ((1 < now) × All (HasEnded now) ls.leases))
  unfolding expire_lease_sets
  expire_lease_sets_iff now db key ls d =
      let p = λ (k : Hash) (l : LeaseSet R). is_current now l in
      let kept = get-retain p key db.ls_ds d in
      let current = is_current_iff now ls in
      (
        λ h.
            let (known, passes) = keep-some p key (HashMap.get key db.ls_ds) ls (sym kept ∙ h) in
            (known, current.0 passes),
        λ h. kept ∙ kept_some p key (HashMap.get key db.ls_ds) ls h.0 (current.1 h.1),
      )
