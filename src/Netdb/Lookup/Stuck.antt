-- ===== src/Netdb/Lookup/Stuck.antt =====
-- Lookups that join one that has begun (`lookup_router_info` of src/netdb/mod.rs).
use ire.Prelude.{
  ℕ, suc, ◌≡◌, ◌≢◌, refl, sym, ap, ◌∙◌, subst, Bool, false, Option, none, some, List, [], ◌∷◌, ◌++◌,
  bytes_eq, bytes_beq, bytes_beq_iff, inl, inr, Bool-cases, All, beq_false_of_ne,
}
use ire.Netdb.{
  keeps_router_info, validate, RouterInfoOps, Database, store_router_info, store_lease_set,
  expire_router_infos, expire_lease_sets,
}
use ire.Netdb.Invariant.{checked-IsDistinct}
use ire.HashMap.{
  retain-IsDistinct, HashMap, get-insert, get-insert_self, keep, keep-some, get-retain, IsDistinct,
}
use ire.Netdb.Lookup.{
  ri_shelf, Shelf, or_closest, waits, lookup_router_info, lookup_entry, join_or_ask, join, ask,
  lookup_db_entry,
}
use ire.HashMap
use ire.Data.{Hash}
use ire.Data.LeaseSet.{LeaseSet}
use ire.Netdb.Store.{store_router_info_cases}

-- What can happen to the database.
pub data Op (RI R : Type 0) : Type 0 where
  store_ri : ℕ → Hash → RI → Bool → Op RI R
  store_ls : Hash → LeaseSet R → Op RI R
  expire_ri : ℕ → Option (Hash → Bool) → Op RI R
  expire_ls : ℕ → Op RI R
  look_up : Hash → ℕ → Option RI → Op RI R

module _ {RI R : Type 0} (ops : RouterInfoOps RI)
    (select_closest_ff : Database RI R → Hash → Option RI) where
  unfoldable pub apply : Database RI R → Op RI R → Database RI R
  apply db (store_ri now k ri fr) = (store_router_info ops now db k ri fr).after
  apply db (store_ls k ls) = (store_lease_set db k ls).after
  apply db (expire_ri now comms) = expire_router_infos ops now comms db
  apply db (expire_ls now) = expire_lease_sets now db
  apply db (look_up k t peer) = (lookup_router_info select_closest_ff db k t peer).0

  unfoldable pub apply_all : Database RI R → List (Op RI R) → Database RI R
  unfolding apply
  apply_all db [] = db
  apply_all db (op ∷ os) = apply_all (apply db op) os

  -- Somebody asked for the key and nothing is stored under it.
  pub record IsAwaited (key : Hash) (db : Database RI R) : Type 0 where
    pub unknown : HashMap.get key db.ri_ds ≡ none
    pub senders : List ℕ
    pub awaited : HashMap.get key db.pending_ri ≡ some senders
    pub distinct : IsDistinct db.ri_ds

  -- The operation stores no RouterInfo under the key.
  abbrev pub StoresElsewhere : Hash → Op RI R → Type 0
  StoresElsewhere key (store_ri now k ri fr) = k ≢ key
  StoresElsewhere key op = Unit {0}

  entry_waits :
      (s : Shelf RI) (key : Hash) (t : ℕ) (ff : Option RI) (o : Option RI) (txs : List ℕ)
      → o ≡ none
      → HashMap.get key s.pending ≡ some txs
      → lookup_entry s key t ff o ≡ (
        record s {
          pending = HashMap.insert key (txs ++ s.next_channel ∷ []) s.pending;
          next_channel = suc s.next_channel;
        },
        waits s.next_channel,
      )
  unfolding lookup_entry
  entry_waits s key t ff none txs e h = unfold join in ap (join_or_ask s key t ff) h
  entry_waits s key t ff (some a) txs e h = cc

  -- A lookup for the key joins: it sends no query, and nothing limits its wait.
  awaited_waits :
      (key : Hash) (db : Database RI R) (t : ℕ) (peer : Option RI)
      → IsAwaited key db
      → (lookup_router_info select_closest_ff db key t peer).1 ≡ waits db.next_channel
  unfolding lookup_router_info
  awaited_waits key db t peer a =
      ap (λ r. r.1)
        (entry_waits (ri_shelf db) key t (or_closest select_closest_ff db key peer)
          (HashMap.get key db.ri_ds) a.senders a.unknown a.awaited)

  inserted_elsewhere :
      (k key : Hash) (v : List ℕ) (m : HashMap Hash (List ℕ))
      → bytes_beq k key ≡ false
      → HashMap.get key (HashMap.insert k v m) ≡ HashMap.get key m
  inserted_elsewhere k key v m ne = get-insert k key v m ∙ rw ne refl

  -- A lookup for one key leaves those that wait for another.
  asked_elsewhere :
      (s : Shelf RI) (k key : Hash) (t : ℕ) (ff : Option RI) (txs : Option (List ℕ))
      → bytes_beq k key ≡ false
      → HashMap.get key (join_or_ask s k t ff txs).0.pending ≡ HashMap.get key s.pending
  unfolding join_or_ask
  asked_elsewhere s k key t none none ne = unfold ask in refl
  asked_elsewhere s k key t (some peer) none ne =
      unfold ask lookup_db_entry in inserted_elsewhere k key _ s.pending ne
  asked_elsewhere s k key t ff (some txs) ne =
      unfold join in inserted_elsewhere k key _ s.pending ne

  looked_elsewhere :
      (s : Shelf RI) (k key : Hash) (t : ℕ) (ff : Option RI) (o : Option RI)
      → bytes_beq k key ≡ false
      → HashMap.get key (lookup_entry s k t ff o).0.pending ≡ HashMap.get key s.pending
  unfolding lookup_entry
  looked_elsewhere s k key t ff none ne = asked_elsewhere s k key t ff (HashMap.get k s.pending) ne
  looked_elsewhere s k key t ff (some a) ne = refl

  lookup-IsAwaited :
      (key k : Hash) (db : Database RI R) (t : ℕ) (peer : Option RI)
      → IsAwaited key db
      → IsAwaited key (lookup_router_info select_closest_ff db k t peer).0
  unfolding lookup_router_info
  lookup-IsAwaited key k db t peer a = elim (Bool-cases (bytes_beq k key)) [
    | inl eq ↦
        let same : k ≡ key = (bytes_beq_iff k key).0 eq in
        record {
          unknown = a.unknown;
          senders = a.senders ++ db.next_channel ∷ [];
          awaited =
              ap (λ r. HashMap.get key r.0.pending)
                (entry_waits (ri_shelf db) k t (or_closest select_closest_ff db k peer)
                  (HashMap.get k db.ri_ds) a.senders (rw same a.unknown) (rw same a.awaited))
              ∙ rw same (get-insert_self key _ db.pending_ri);
          distinct = a.distinct;
        }
    | inr ne ↦ record {
      unknown = a.unknown;
      senders = a.senders;
      awaited = looked_elsewhere (ri_shelf db) k key t _ (HashMap.get k db.ri_ds) ne ∙ a.awaited;
      distinct = a.distinct;
    }
  ]

  stored-IsAwaited :
      (key k : Hash) (now : ℕ) (db : Database RI R) (ri : RI) (fr : Bool)
      → k ≢ key
      → IsAwaited key db
      → IsAwaited key (store_router_info ops now db k ri fr).after
  stored-IsAwaited key k now db ri fr ne a = elim (store_router_info_cases ops now db k ri fr) [
    | inl (passed, s) ↦
        let other : bytes_beq k key ≡ false = beq_false_of_ne k key ne in
        record {
          unknown = s.entries key ∙ rw other a.unknown;
          senders = a.senders;
          awaited = s.lookups key ∙ rw other a.awaited;
          distinct =
              unfold store_router_info in
              checked-IsDistinct ops (validate ops now k ri fr) db k ri a.distinct;
        }
    | inr (e, failed, unchanged) ↦ subst (IsAwaited key) (sym (ap (λ s. s.after) unchanged)) a
  ]

  apply-IsAwaited :
      (key : Hash) (db : Database RI R) (op : Op RI R)
      → StoresElsewhere key op
      → IsAwaited key db
      → IsAwaited key (apply db op)
  unfolding apply
  apply-IsAwaited key db (store_ri now k ri fr) ne a = stored-IsAwaited key k now db ri fr ne a
  apply-IsAwaited key db (store_ls k ls) ne a =
      unfold store_lease_set in
      record {
        unknown = a.unknown;
        senders = a.senders;
        awaited = a.awaited;
        distinct = a.distinct;
      }
  apply-IsAwaited key db (expire_ri now comms) ne a =
      unfold expire_router_infos in
      record {
        unknown =
            get-retain (keeps_router_info ops now comms) key db.ri_ds a.distinct
            ∙ ap (keep (keeps_router_info ops now comms) key) a.unknown;
        senders = a.senders;
        awaited = a.awaited;
        distinct = retain-IsDistinct (keeps_router_info ops now comms) db.ri_ds a.distinct;
      }
  apply-IsAwaited key db (expire_ls now) ne a =
      unfold expire_lease_sets in
      record {
        unknown = a.unknown;
        senders = a.senders;
        awaited = a.awaited;
        distinct = a.distinct;
      }
  apply-IsAwaited key db (look_up k t peer) ne a = lookup-IsAwaited key k db t peer a

  apply_all-IsAwaited :
      (key : Hash) (db : Database RI R) (os : List (Op RI R))
      → All (StoresElsewhere key) os
      → IsAwaited key db
      → IsAwaited key (apply_all db os)
  unfolding apply_all
  apply_all-IsAwaited key db [] h a = a
  apply_all-IsAwaited key db (op ∷ os) h a =
      apply_all-IsAwaited key (apply db op) os h.1 (apply-IsAwaited key db op h.0 a)

  -- Once a key is looked up that has no RouterInfo, and for as long as none is stored under it,
  -- whatever else the database does, every later lookup for the key only joins the first: it sends
  -- no query and waits without a time limit, also when the first has long given up.
  pub joiners_wait :
      (key : Hash) (db : Database RI R) (os : List (Op RI R)) (t : ℕ) (peer : Option RI)
      → IsAwaited key db
      → All (StoresElsewhere key) os
      → (lookup_router_info select_closest_ff (apply_all db os) key t peer).1
        ≡ waits (apply_all db os).next_channel
  joiners_wait key db os t peer a h =
      awaited_waits key (apply_all db os) t peer (apply_all-IsAwaited key db os h a)
