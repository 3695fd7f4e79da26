-- ===== src/Netdb/Tests.antt =====
-- The database's theorems at concrete routers and lease sets. A router here is its hash and the
-- date of publication: it verifies, is of our network, and is a floodfill.
use ire.Prelude.{
  ℕ, ◌<◌, ◌≡◌, ◌↔◌, ◌⊎◌, inl, inr, refl, sym, subst, Bool, Bool-cases, bytes_beq_iff, true, false,
  none, some, List, [], ◌∷◌, arith, Bytes, bytes_eq, bytes_beq, ok, err, All,
}
use ire.HashMap
use ire.HashMap.{IsDistinct, HashMap}
use ire.Data.{Hash}
use ire.Data.LeaseSet.{LeaseSet, HasEnded}
use ire.Netdb.{
  RouterInfoOps, Database, StoreError, net_id, validate, store_router_info, expire_router_infos,
  expire_lease_sets,
}
use ire.Netdb.Store.{IsGenuine, IsLive, IsStored, validate_iff, store_router_info_cases}
use ire.Netdb.Invariant.{IsValid, store_router_info-IsValid}
use ire.Netdb.Expiry.{expire_router_infos_iff, expire_lease_sets_iff}
use ire.Netdb.Metric.{bytes_le, min_by_key}
use ire.Netdb.Closest.{
  IsCandidate, filter_values, select_closest_ff, distance, select_closest_ff-some,
  select_closest_ff-none,
}
use ire.Netdb.Lookup.{waits, lookup_router_info}
use ire.Netdb.Lookup.Stuck.{Op, store_ri, look_up, apply_all, IsAwaited, joiners_wait}

record Router : Type 0 where
  hash : Hash
  published : ℕ

abbrev router_ops : RouterInfoOps Router
router_ops = record {
  hash = λ r. r.hash;
  verify = λ r. ok tt;
  network_id = λ r. some net_id;
  published = λ r. r.published;
  is_floodfill = λ r. true;
}

abbrev near : Router
near = record { hash = 1 ∷ []; published = 1000 }

abbrev far : Router
far = record { hash = 9 ∷ []; published = 2000 }

abbrev ended : LeaseSet ℕ
ended = record { rest = 7; leases = record { tunnel_gw = []; tid = 1; end_date = 500 } ∷ [] }

abbrev known : Database Router ℕ
known = record {
  ri_ds = ((1 ∷ []), near) ∷ [];
  ls_ds = ((5 ∷ []), ended) ∷ [];
  pending_ri = ((9 ∷ []), 3 ∷ 4 ∷ []) ∷ [];
  pending_ls = [];
  next_channel = 5;
}

known-IsDistinct : IsDistinct known.ri_ds
unfolding HashMap.get
known-IsDistinct = (refl, tt)

known-ls-IsDistinct : IsDistinct known.ls_ds
unfolding HashMap.get
known-ls-IsDistinct = (refl, tt)

near-IsGenuine :
    (key : Hash) (ri : Router) → HashMap.get key known.ri_ds ≡ some ri → IsGenuine router_ops key ri
unfolding HashMap.get
near-IsGenuine key ri h = elim (Bool-cases (bytes_beq near.hash key)) [
  | inl same ↦
      let key_eq : near.hash ≡ key = (bytes_beq_iff near.hash key).0 same in
      let ri_eq : near ≡ ri = ground (arith, same) in
      subst (λ r. IsGenuine router_ops key r) ri_eq
        (record { own_key = sym key_eq; signed = refl; our_network = refl })
  | inr other ↦ absurd (ground (arith, other))
]

known-IsValid : IsValid router_ops known
unfolding HashMap.get
known-IsValid = record { distinct = (refl, tt); ls_distinct = (refl, tt); genuine = near-IsGenuine }

is_up : Hash → Bool
is_up key = false

validate_iff_example :
    (validate router_ops 3000 far.hash far false ≡ ok tt)
    ↔ (IsGenuine router_ops far.hash far × ((false ≡ true) ⊎ IsLive router_ops 3000 far))
validate_iff_example = validate_iff router_ops 3000 far.hash far false

store_router_info_cases_example :
    ((validate router_ops 3000 far.hash far false ≡ ok tt)
      × IsStored router_ops known far.hash far
          (store_router_info router_ops 3000 known far.hash far false))
    ⊎ ((e : StoreError) × (validate router_ops 3000 far.hash far false ≡ err e)
        × (store_router_info router_ops 3000 known far.hash far false
            ≡ record { after = known; outcome = err e; notified = [] }))
store_router_info_cases_example = store_router_info_cases router_ops 3000 known far.hash far false

store_router_info-IsValid_example :
    IsValid router_ops (store_router_info router_ops 3000 known far.hash far false).after
store_router_info-IsValid_example =
    store_router_info-IsValid router_ops 3000 known far.hash far false known-IsValid

expire_router_infos_iff_example :
    (HashMap.get near.hash (expire_router_infos router_ops 3000 (some is_up) known).ri_ds
      ≡ some near)
    ↔ ((HashMap.get near.hash known.ri_ds ≡ some near)
        × ((is_up near.hash ≡ true) ⊎ IsLive router_ops 3000 near))
expire_router_infos_iff_example =
    expire_router_infos_iff router_ops 3000 is_up known near.hash near known-IsValid

expire_lease_sets_iff_example :
    (HashMap.get (5 ∷ []) (expire_lease_sets 1000 known).ls_ds ≡ some ended) ↔ (
      (HashMap.get (5 ∷ []) known.ls_ds ≡ some ended)
      × ((1 < 1000) × All (HasEnded 1000) ended.leases))
expire_lease_sets_iff_example = expire_lease_sets_iff 1000 known (5 ∷ []) ended known-ls-IsDistinct

abbrev digest : Bytes → Bytes
digest bytes = bytes

near_selected : select_closest_ff router_ops digest [] known (3 ∷ []) ≡ some near
unfolding select_closest_ff min_by_key filter_values
near_selected = refl

select_closest_ff-some_example :
    IsCandidate router_ops.is_floodfill known.ri_ds near
    × ((r : Router)
        → IsCandidate router_ops.is_floodfill known.ri_ds r
        → bytes_le
            (distance router_ops digest [] (3 ∷ []) near)
            (distance router_ops digest [] (3 ∷ []) r)
          ≡ true)
select_closest_ff-some_example =
    select_closest_ff-some router_ops digest [] known (3 ∷ []) near known-IsDistinct near_selected

abbrev nobody : Database Router ℕ
nobody = record known { ri_ds = [] }

select_closest_ff-none_example :
    (select_closest_ff router_ops digest [] nobody (3 ∷ []) ≡ none)
    ↔ ((r : Router) → IsCandidate router_ops.is_floodfill nobody.ri_ds r → ⊥)
select_closest_ff-none_example = select_closest_ff-none router_ops digest [] nobody (3 ∷ []) tt

abbrev ops_run : List (Op Router ℕ)
ops_run = store_ri 3000 (1 ∷ []) near false ∷ look_up (9 ∷ []) 100 (some near) ∷ []

far-IsAwaited : IsAwaited router_ops (select_closest_ff router_ops digest []) (9 ∷ []) known
unfolding HashMap.get
far-IsAwaited = record {
  unknown = refl;
  senders = 3 ∷ 4 ∷ [];
  awaited = refl;
  distinct = known-IsDistinct;
}

joiners_wait_example :
    (lookup_router_info
      (select_closest_ff router_ops digest [])
      (apply_all router_ops (select_closest_ff router_ops digest []) known ops_run)
      (9 ∷ [])
      100
      none).1
    ≡ waits
        (apply_all router_ops (select_closest_ff router_ops digest []) known ops_run).next_channel
joiners_wait_example =
    joiners_wait router_ops (select_closest_ff router_ops digest []) (9 ∷ []) known ops_run 100 none
      far-IsAwaited (λ e. cc, (tt, tt))
