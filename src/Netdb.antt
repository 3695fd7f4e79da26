-- ===== src/Netdb.antt =====
-- `LocalNetworkDatabase` of src/netdb/mod.rs: the RouterInfos and LeaseSets that the router knows,
-- and the lookups that wait for one. What the database asks of a RouterInfo is the interface
-- `RouterInfoOps`. A time is in milliseconds since the Unix epoch; the sender of a oneshot channel
-- is a number, counted up in place of `oneshot::channel()`.
pub mod Store
pub mod Invariant
pub mod Expiry
pub mod Lookup
pub mod Engine
pub mod Metric
pub mod Closest
mod Tests
use ire.Prelude.{
  ℕ, suc, ◌+◌, ◌-◌, ◌*◌, Bool, true, false, not, Option, none, some, List, [], ◌∷◌, ◌++◌, map,
  length, ltb, if◌then◌else◌, Bytes, bytes_beq, bytes_eq, Result, ok, err, ◌>>=◌, ◌>>◌, guard, ◌||◌,
}
use ire.HashMap
use ire.HashMap.{HashMap}
use ire.Crypto.{CryptoError}
use ire.Data.{Hash, I2PDate}
use ire.Data.LeaseSet.{LeaseSet}
use ire.Data.LeaseSet

-- What the database asks of a RouterInfo: `router_id.hash()`, `verify()` with its error,
-- `network_id()`, `published` and `is_floodfill()`.
pub record RouterInfoOps (RI : Type 0) : Type 0 where
  pub hash : RI → Hash
  pub verify : RI → Result CryptoError (Unit {0})
  pub network_id : RI → Option Bytes
  pub published : RI → I2PDate
  pub is_floodfill : RI → Bool

-- src/netdb/errors.rs
pub data StoreError : Type 0 where
  crypto : CryptoError → StoreError
  expired : ℕ → StoreError
  invalid_key published_in_future wrong_network : StoreError

-- `ROUTER_INFO_EXPIRATION` (27 hours) and the drift allowed for a clock (2 minutes).
abbrev pub router_info_expiration : ℕ
router_info_expiration = 27 * 60 * 60 * 1000

abbrev pub clock_drift : ℕ
clock_drift = 2 * 60 * 1000

-- `NET_ID`: "2"
abbrev pub net_id : Bytes
net_id = b'2' ∷ []

-- Both comparisons with `now - d` are written with the duration on the other side, where no
-- subtraction can stop at 0.
unfoldable pub router_info_is_current : ℕ → I2PDate → Result StoreError (Unit {0})
router_info_is_current now published =
    if ltb (published + router_info_expiration) now
    then err (expired (now - published))
    else if ltb (now + clock_drift) published
    then err published_in_future
    else ok tt

-- `ri.verify()?`, with the conversion of the error.
unfoldable pub lift_crypto : Result CryptoError (Unit {0}) → Result StoreError (Unit {0})
lift_crypto (ok u) = ok u
lift_crypto (err e) = err (crypto e)

-- `network_id().map(|net_id| *net_id != *NET_ID).unwrap_or(true)`, negated.
unfoldable pub in_our_network : Option Bytes → Bool
in_our_network none = false
in_our_network (some n) = bytes_beq n net_id

-- The state. `pending_ri` and `pending_ls` hold the senders of the lookups that wait.
pub record Database (RI R : Type 0) : Type 0 where
  pub ri_ds : HashMap Hash RI
  pub ls_ds : HashMap Hash (LeaseSet R)
  pub pending_ri : HashMap Hash (List ℕ)
  pub pending_ls : HashMap Hash (List ℕ)
  pub next_channel : ℕ

-- `LocalNetworkDatabase::new` and `known_routers`
unfoldable pub new_database : {RI R : Type 0} → Database RI R
new_database = record { ri_ds = []; ls_ds = []; pending_ri = []; pending_ls = []; next_channel = 0 }

abbrev pub count_routers : {RI R : Type 0} → Database RI R → ℕ
count_routers db = length db.ri_ds

-- What a store returns: the state, the value that the key had or the error, and the senders that
-- were sent the new entry, in order.
pub record Stored (RI R A : Type 0) : Type 0 where
  pub after : Database RI R
  pub outcome : Result StoreError (Option A)
  pub notified : List ℕ

-- The senders that `pending.remove(&key)` yields.
unfoldable pub waiting : Hash → HashMap Hash (List ℕ) → List ℕ
waiting key pending = elim (HashMap.get key pending) [ none ↦ [] | some txs ↦ txs ]

module _ {RI : Type 0} (ops : RouterInfoOps RI) where
  open ops use {hash, verify, network_id, published}

  -- The checks at the head of `store_router_info`.
  unfoldable pub validate : ℕ → Hash → RI → Bool → Result StoreError (Unit {0})
  unfolding lift_crypto in_our_network router_info_is_current
  validate now key ri from_reseed = do
    guard (bytes_beq key (hash ri)) invalid_key
    lift_crypto (verify ri)
    guard (in_our_network (network_id ri)) wrong_network
    if from_reseed then ok tt else router_info_is_current now (published ri)

  -- `router_info_is_current(ri).is_ok()`
  unfoldable pub is_fresh : ℕ → RI → Bool
  unfolding router_info_is_current
  is_fresh now ri = elim (router_info_is_current now (published ri)) [ ok _ ↦ true | err _ ↦ false ]

  -- What the closure of `expire_router_infos` keeps; `comms` is `is_established` of the transports,
  -- if a context is given.
  unfoldable pub keeps_router_info : ℕ → Option (Hash → Bool) → Hash → RI → Bool
  unfolding is_fresh
  keeps_router_info now none key ri = is_fresh now ri
  keeps_router_info now (some is_established) key ri = is_established (hash ri) || is_fresh now ri

module _ {RI R : Type 0} where
  -- `store_router_info` after its checks.
  unfoldable pub insert_router_info : Database RI R → Hash → RI → Stored RI R RI
  unfolding waiting
  insert_router_info db key ri = record {
    after = record db {
      ri_ds = HashMap.insert key ri db.ri_ds;
      pending_ri = HashMap.remove key db.pending_ri;
    };
    outcome = ok (HashMap.get key db.ri_ds);
    notified = waiting key db.pending_ri;
  }

  unfoldable pub store_checked :
      Result StoreError (Unit {0}) → Database RI R → Hash → RI → Stored RI R RI
  unfolding insert_router_info
  store_checked (ok u) db key ri = insert_router_info db key ri
  store_checked (err e) db key ri = record { after = db; outcome = err e; notified = [] }

  unfoldable pub store_router_info :
      RouterInfoOps RI → ℕ → Database RI R → Hash → RI → Bool → Stored RI R RI
  store_router_info ops now db key ri from_reseed =
      store_checked (validate ops now key ri from_reseed) db key ri

  unfoldable pub store_lease_set : Database RI R → Hash → LeaseSet R → Stored RI R (LeaseSet R)
  unfolding waiting
  store_lease_set db key ls = record {
    after = record db {
      ls_ds = HashMap.insert key ls db.ls_ds;
      pending_ls = HashMap.remove key db.pending_ls;
    };
    outcome = ok (HashMap.get key db.ls_ds);
    notified = waiting key db.pending_ls;
  }

  unfoldable pub expire_router_infos :
      RouterInfoOps RI → ℕ → Option (Hash → Bool) → Database RI R → Database RI R
  expire_router_infos ops now comms db = record db {
    ri_ds = HashMap.retain (keeps_router_info ops now comms) db.ri_ds;
  }

  unfoldable pub expire_lease_sets : ℕ → Database RI R → Database RI R
  expire_lease_sets now db = record db {
    ls_ds = HashMap.retain (λ key ls. LeaseSet.is_current now ls) db.ls_ds;
  }
