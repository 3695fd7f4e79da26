-- ===== src/Netdb/Engine/Panic.antt =====
-- When a message from the network makes the engine of src/netdb/mod.rs panic.
use ire.Prelude.{
  ok, ◌∙◌, bytes_beq_self, bytes_eq, Option, some, subst, ℕ, ◌≡◌, ◌↔◌, inl, inr, refl, sym, ap,
  false, err,
}
use ire.Netdb.Engine.{goes_on, Engine, panicked, handle_store, handle_message, expect}
use ire.HashMap
use ire.Netdb.Store.{IsGenuine, IsLive, validate_iff, store_router_info_cases}
use ire.Netdb.{
  net_id, RouterInfoOps, Database, StoreError, store_router_info, store_lease_set, validate,
}
use ire.I2np.{
  ReplyPath, from_ri, MessagePayload, DatabaseStore, DatabaseStoreData, database_store,
  database_search_reply, ri, ls,
}
use ire.Data.{Hash}
use ire.Data.LeaseSet.{LeaseSet}

module _ {RI R : Type 0} (ops : RouterInfoOps RI) where
  -- A DatabaseStore message whose RouterInfo fails the checks.
  pub data IsRejected (now : ℕ) : MessagePayload RI (LeaseSet R) → Type 0 where
    rejected :
        (ds : DatabaseStore RI (LeaseSet R)) (r : RI) (x : StoreError)
        → ds.payload ≡ ri r
        → validate ops now ds.key r false ≡ err x
        → IsRejected now (database_store ds)

  expect_ok :
      (now : ℕ) (db : Database RI R) (key : Hash) (r : RI)
      → expect (store_router_info ops now db key r false).outcome ≡ panicked
      → (x : StoreError) × (validate ops now key r false ≡ err x)
  unfolding expect
  expect_ok now db key r h = elim (store_router_info_cases ops now db key r false) [
    | inl (passed, s) ↦ absurd (cc (h, s.returns))
    | inr (x, failed, unchanged) ↦ (x, failed)
  ]

  expect_err :
      (now : ℕ) (db : Database RI R) (key : Hash) (r : RI) (x : StoreError)
      → validate ops now key r false ≡ err x
      → expect (store_router_info ops now db key r false).outcome ≡ panicked
  unfolding expect
  expect_err now db key r x e = elim (store_router_info_cases ops now db key r false) [
    | inl (passed, s) ↦ absurd (cc (passed, e))
    | inr (y, failed, unchanged) ↦ ap (λ s. expect s.outcome) unchanged
  ]

  store_panics :
      (now : ℕ) (e : Engine RI R) (key : Hash) (d : DatabaseStoreData RI (LeaseSet R))
      → (handle_store ops now e key d).ending ≡ panicked
      → (r : RI) × (x : StoreError) × (d ≡ ri r) × (validate ops now key r false ≡ err x)
  unfolding handle_store
  store_panics now e key (ri r) h =
      let (x, failed) = expect_ok now e.netdb key r h in (r, x, refl, failed)
  store_panics now e key (ls l) h = absurd (unfold store_lease_set expect in cc h)

  rejected_panics :
      (now : ℕ) (e : Engine RI R) (key : Hash) (d : DatabaseStoreData RI (LeaseSet R)) (r : RI)
      (x : StoreError)
      → d ≡ ri r
      → validate ops now key r false ≡ err x
      → (handle_store ops now e key d).ending ≡ panicked
  unfolding handle_store
  rejected_panics now e key d r x is_ri failed =
      subst (λ y. (handle_store ops now e key y).ending ≡ panicked) (sym is_ri)
        (expect_err now e.netdb key r x failed)

  message_panics :
      (now : ℕ) (e : Engine RI R) (from : Hash) (m : MessagePayload RI (LeaseSet R))
      → (handle_message ops now e from m).ending ≡ panicked
      → IsRejected now m
  unfolding handle_message
  message_panics now e from (database_store ds) h =
      let (r, x, is_ri, failed) = store_panics now e ds.key ds.payload h in
      rejected ds r x is_ri failed
  message_panics now e from (database_search_reply dsr) h = cc
  message_panics now e from other h = cc

  IsRejected-panics :
      (now : ℕ) (e : Engine RI R) (from : Hash) (m : MessagePayload RI (LeaseSet R))
      → IsRejected now m
      → (handle_message ops now e from m).ending ≡ panicked
  unfolding handle_message
  IsRejected-panics now e from m (rejected ds r x is_ri failed) =
      rejected_panics now e ds.key ds.payload r x is_ri failed

  -- A message from the network makes the engine panic exactly when it is a DatabaseStore of a
  -- RouterInfo that fails the checks of the database.
  pub handle_message_panics_iff :
      (now : ℕ) (e : Engine RI R) (from : Hash) (m : MessagePayload RI (LeaseSet R))
      → ((handle_message ops now e from m).ending ≡ panicked) ↔ IsRejected now m
  handle_message_panics_iff now e from m =
      (message_panics now e from m, IsRejected-panics now e from m)

  -- A DatabaseStore that a router makes of a RouterInfo that verifies, is of our network and is live
  -- never makes the engine panic, and is the entry of its key afterwards.
  pub from_ri_accepted :
      (now : ℕ) (e : Engine RI R) (from : Hash) (r : RI) (reply : Option ReplyPath)
      → ops.verify r ≡ ok tt
      → ops.network_id r ≡ some net_id
      → IsLive ops now r
      → ((handle_message ops now e from (database_store (from_ri ops.hash r reply))).ending
          ≡ goes_on)
        × (HashMap.get
              (ops.hash r)
              (handle_message ops now e from
                (database_store (from_ri ops.hash r reply))).after.netdb.ri_ds
            ≡ some r)
  unfolding handle_message handle_store from_ri expect
  from_ri_accepted now e from r reply signed network live =
      let genuine : IsGenuine ops (ops.hash r) r = record {
        own_key = refl;
        signed = signed;
        our_network = network;
      } in
      let passes = (validate_iff ops now (ops.hash r) r false).1 (genuine, inr live) in
      elim (store_router_info_cases ops now e.netdb (ops.hash r) r false) [
        | inl (passed, s) ↦
            (ap expect s.returns, s.entries (ops.hash r) ∙ rw (bytes_beq_self (ops.hash r)) refl)
        | inr (x, failed, unchanged) ↦ absurd (cc (passes, failed))
      ]
