-- ===== src/Netdb/Store.antt =====
-- Which RouterInfos `store_router_info` (src/netdb/mod.rs) takes, and what it does with them.
use ire.Prelude.{
  ℕ, ◌+◌, ◌≤◌, ◌≡◌, ◌↔◌, ◌⊎◌, inl, inr, refl, Bool, true, false, Option, none, some, [], arith,
  Bytes, bytes_beq, bytes_beq_iff, bytes_eq, Result, ok, err, if◌then◌else◌,
}
use ire.HashMap
use ire.HashMap.{get-insert, get-remove}
use ire.Data.{Hash}
use ire.Netdb.{
  RouterInfoOps, Database, Stored, StoreError, net_id, validate, store_router_info, store_checked,
  insert_router_info, waiting, router_info_expiration, clock_drift, router_info_is_current,
  in_our_network, lift_crypto,
}

module _ {RI : Type 0} (ops : RouterInfoOps RI) where
  -- The RouterInfo has a right to stand under its key.
  pub record IsGenuine (key : Hash) (ri : RI) : Type 0 where
    pub own_key : key ≡ ops.hash ri
    pub signed : ops.verify ri ≡ ok tt
    pub our_network : ops.network_id ri ≡ some net_id

  -- Published at most 27 hours ago, and at most two minutes ahead of the clock.
  pub record IsLive (now : ℕ) (ri : RI) : Type 0 where
    pub young : now ≤ ops.published ri + router_info_expiration
    pub started : ops.published ri ≤ now + clock_drift

  network-eq : (o : Option Bytes) → in_our_network o ≡ true → o ≡ some net_id
  unfolding in_our_network
  network-eq none h = cc
  network-eq (some n) h = ground (arith, bytes_beq_iff n net_id)

  current-IsLive :
      (now : ℕ) (ri : RI) → router_info_is_current now (ops.published ri) ≡ ok tt → IsLive now ri
  unfolding router_info_is_current
  current-IsLive now ri h = ground arith

  IsLive-current :
      (now : ℕ) (ri : RI) → IsLive now ri → router_info_is_current now (ops.published ri) ≡ ok tt
  unfolding router_info_is_current
  IsLive-current now ri h = ground arith

  validated :
      (now : ℕ) (key : Hash) (ri : RI) (fr : Bool)
      → validate ops now key ri fr ≡ ok tt
      → IsGenuine key ri × ((fr ≡ true) ⊎ IsLive now ri)
  validated now key ri true h = (
    record {
      own_key = unfold validate in ground (arith, bytes_beq_iff key (ops.hash ri));
      signed = unfold validate lift_crypto in ground arith;
      our_network = network-eq (ops.network_id ri) (unfold validate in ground arith);
    },
    inl refl,
  )
  validated now key ri false h = (
    record {
      own_key = unfold validate in ground (arith, bytes_beq_iff key (ops.hash ri));
      signed = unfold validate lift_crypto in ground arith;
      our_network = network-eq (ops.network_id ri) (unfold validate in ground arith);
    },
    inr (current-IsLive now ri (unfold validate in ground arith)),
  )

  validates :
      (now : ℕ) (key : Hash) (ri : RI) (fr : Bool)
      → IsGenuine key ri
      → (fr ≡ true) ⊎ IsLive now ri
      → validate ops now key ri fr ≡ ok tt
  unfolding validate in_our_network lift_crypto
  validates now key ri fr g (inl e) =
      rw (g.signed, g.our_network, e)
        (ground (arith, bytes_beq_iff key (ops.hash ri), g.own_key, bytes_beq_iff net_id net_id))
  validates now key ri fr g (inr l) =
      rw (g.signed, g.our_network)
        (ground (
          arith,
          bytes_beq_iff key (ops.hash ri),
          g.own_key,
          IsLive-current now ri l,
          bytes_beq_iff net_id net_id,
        ))

  -- `store_router_info` takes a RouterInfo exactly when the key is its own hash, its signature
  -- verifies, its network id is "2" and, unless it comes from a reseed, it was published at most
  -- 27 hours ago and at most two minutes ahead of the clock.
  pub validate_iff :
      (now : ℕ) (key : Hash) (ri : RI) (from_reseed : Bool)
      → (validate ops now key ri from_reseed ≡ ok tt)
        ↔ (IsGenuine key ri × ((from_reseed ≡ true) ⊎ IsLive now ri))
  validate_iff now key ri fr = (validated now key ri fr, λ h. validates now key ri fr h.0 h.1)

module _ {RI R : Type 0} (ops : RouterInfoOps RI) where
  -- What a store of `ri` under `key` does when the checks pass.
  pub record IsStored (db : Database RI R) (key : Hash) (ri : RI) (s : Stored RI R RI)
      : Type 0 where
    pub returns : s.outcome ≡ ok (HashMap.get key db.ri_ds)
    pub entries :
        (k : Hash)
        → HashMap.get k s.after.ri_ds
          ≡ (if bytes_beq key k then some ri else HashMap.get k db.ri_ds)
    pub notifies : s.notified ≡ waiting key db.pending_ri
    pub lookups :
        (k : Hash)
        → HashMap.get k s.after.pending_ri
          ≡ (if bytes_beq key k then none else HashMap.get k db.pending_ri)
    pub lease_sets : s.after.ls_ds ≡ db.ls_ds
    pub ls_lookups : s.after.pending_ls ≡ db.pending_ls

  insert-IsStored :
      (db : Database RI R) (key : Hash) (ri : RI)
      → IsStored db key ri (insert_router_info db key ri)
  unfolding insert_router_info
  insert-IsStored db key ri = record {
    returns = refl;
    entries = λ k. get-insert key k ri db.ri_ds;
    notifies = refl;
    lookups = λ k. get-remove key k db.pending_ri;
    lease_sets = refl;
    ls_lookups = refl;
  }

  checked_cases :
      (r : Result StoreError (Unit {0})) (db : Database RI R) (key : Hash) (ri : RI)
      → ((r ≡ ok tt) × IsStored db key ri (store_checked r db key ri))
        ⊎ ((e : StoreError) × (r ≡ err e)
            × (store_checked r db key ri ≡ record { after = db; outcome = err e; notified = [] }))
  unfolding store_checked
  checked_cases (ok u) db key ri = inl (refl, insert-IsStored db key ri)
  checked_cases (err e) db key ri = inr (e, refl, refl)

  -- A store whose checks pass returns the previous entry, puts the RouterInfo under its key and
  -- touches no other entry, sends it to every lookup that waits for the key, in the order in which
  -- they registered, and forgets those lookups only. A store whose checks fail returns their error,
  -- changes nothing and notifies nobody.
  pub store_router_info_cases :
      (now : ℕ) (db : Database RI R) (key : Hash) (ri : RI) (from_reseed : Bool)
      → ((validate ops now key ri from_reseed ≡ ok tt)
          × IsStored db key ri (store_router_info ops now db key ri from_reseed))
        ⊎ ((e : StoreError) × (validate ops now key ri from_reseed ≡ err e)
            × (store_router_info ops now db key ri from_reseed
                ≡ record { after = db; outcome = err e; notified = [] }))
  unfolding store_router_info
  store_router_info_cases now db key ri from_reseed =
      checked_cases (validate ops now key ri from_reseed) db key ri
