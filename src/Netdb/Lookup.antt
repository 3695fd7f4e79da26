-- ===== src/Netdb/Lookup.antt =====
-- `lookup_router_info` and `lookup_lease_set` of src/netdb/mod.rs: what a lookup does at once, and
-- what the future waits for that it returns. `select_closest_ff` is a parameter here.
pub mod Stuck
use ire.Prelude.{
  ℕ, suc, ◌≡◌, refl, Bool, Option, none, some, List, [], ◌∷◌, ◌++◌, Bytes, bytes_eq, ◌⊎◌, inl, inr,
}
use ire.HashMap
use ire.HashMap.{HashMap, get-insert}
use ire.Data.{Hash}
use ire.Data.LeaseSet.{LeaseSet}
use ire.Netdb.{Database}

-- The future: ready with an entry, waiting on a receiver with no time limit, an iterative lookup
-- from a floodfill that also waits on a receiver and gives up after a timeout, or an error.
pub data Lookup (RI A : Type 0) : Type 0 where
  found : A → Lookup RI A
  waits : ℕ → Lookup RI A
  queries : ℕ → RI → ℕ → Lookup RI A
  not_found : Lookup RI A

-- The two maps of one kind of entry, and the next channel.
pub record Shelf (A : Type 0) : Type 0 where
  pub entries : HashMap Hash A
  pub pending : HashMap Hash (List ℕ)
  pub next_channel : ℕ

module _ {RI A : Type 0} where
  -- `pending.entry(key).or_default().push(tx_store)` at the head of `lookup_db_entry`
  unfoldable pub lookup_db_entry : Shelf A → Hash → RI → ℕ → Shelf A × Lookup RI A
  lookup_db_entry s key ff timeout_ms = (
    record s {
      pending = HashMap.insert key (s.next_channel ∷ []) s.pending;
      next_channel = suc s.next_channel;
    },
    queries s.next_channel ff timeout_ms,
  )

  -- `pending.push(tx)`: there is a lookup for the key to join.
  unfoldable pub join : Shelf A → Hash → List ℕ → Shelf A × Lookup RI A
  join s key txs = (
    record s {
      pending = HashMap.insert key (txs ++ s.next_channel ∷ []) s.pending;
      next_channel = suc s.next_channel;
    },
    waits s.next_channel,
  )

  -- Nothing is known of the key: ask the given floodfill, if there is one.
  unfoldable pub ask : Shelf A → Hash → ℕ → Option RI → Shelf A × Lookup RI A
  unfolding lookup_db_entry
  ask s key timeout_ms none = (s, not_found)
  ask s key timeout_ms (some ff) = lookup_db_entry s key ff timeout_ms

  unfoldable pub join_or_ask :
      Shelf A → Hash → ℕ → Option RI → Option (List ℕ) → Shelf A × Lookup RI A
  unfolding ask join
  join_or_ask s key timeout_ms ff none = ask s key timeout_ms ff
  join_or_ask s key timeout_ms ff (some txs) = join s key txs

  -- The part that both lookups share: `ff` is whom to ask.
  unfoldable pub lookup_entry : Shelf A → Hash → ℕ → Option RI → Option A → Shelf A × Lookup RI A
  unfolding join_or_ask
  lookup_entry s key timeout_ms ff (some a) = (s, found a)
  lookup_entry s key timeout_ms ff none =
      join_or_ask s key timeout_ms ff (HashMap.get key s.pending)

module _ {RI R : Type 0} where
  abbrev pub ri_shelf : Database RI R → Shelf RI
  ri_shelf db = record {
    entries = db.ri_ds;
    pending = db.pending_ri;
    next_channel = db.next_channel;
  }

  abbrev pub ls_shelf : Database RI R → Shelf (LeaseSet R)
  ls_shelf db = record {
    entries = db.ls_ds;
    pending = db.pending_ls;
    next_channel = db.next_channel;
  }

module _ {RI R : Type 0} (select_closest_ff : Database RI R → Hash → Option RI) where
  -- `from_peer.or_else(|| self.select_closest_ff(key))`
  unfoldable pub or_closest : Database RI R → Hash → Option RI → Option RI
  or_closest db key none = select_closest_ff db key
  or_closest db key (some peer) = some peer

  unfoldable pub lookup_router_info :
      Database RI R → Hash → ℕ → Option RI → Database RI R × Lookup RI RI
  unfolding or_closest
  lookup_router_info db key timeout_ms from_peer =
      let r =
        lookup_entry (ri_shelf db) key timeout_ms (or_closest db key from_peer)
          (HashMap.get key db.ri_ds) in
      (record db { pending_ri = r.0.pending; next_channel = r.0.next_channel }, r.1)

  unfoldable pub lookup_lease_set :
      Database RI R → Hash → ℕ → Database RI R × Lookup RI (LeaseSet R)
  lookup_lease_set db key timeout_ms =
      let r =
        lookup_entry (ls_shelf db) key timeout_ms (select_closest_ff db key)
          (HashMap.get key db.ls_ds) in
      (record db { pending_ls = r.0.pending; next_channel = r.0.next_channel }, r.1)
