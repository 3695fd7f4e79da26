-- ===== src/Netdb/Engine/Tests.antt =====
-- The engine's theorems at concrete messages. A router here is its hash; it verifies, and it is of
-- our network.
use ire.Prelude.{bytes_eq, refl, some, arith, ℕ, ◌≡◌, ◌↔◌, true, false, none, [], ◌∷◌, ok}
use ire.HashMap
use ire.Netdb.Engine.Panic.{from_ri_accepted, IsRejected, handle_message_panics_iff}
use ire.I2np.{from_ri, MessagePayload, database_store, ri}
use ire.Netdb.Engine.{
  new_engine, Engine, Turn, known_routers, item, goes_on, panicked, handle_message, run,
}
use ire.Data.{Hash}
use ire.Data.LeaseSet.{LeaseSet}
use ire.Netdb.{RouterInfoOps, net_id}
use ire.Netdb.Invariant.{IsValid}
use ire.Netdb.Engine.Kept.{started-IsValid}

abbrev router_ops : RouterInfoOps Hash
router_ops = record {
  hash = λ r. r;
  verify = λ r. ok tt;
  network_id = λ r. some net_id;
  published = λ r. 1000;
  is_floodfill = λ r. true;
}

abbrev idle : Engine Hash ℕ
idle = record {
  netdb = record { ri_ds = []; ls_ds = []; pending_ri = []; pending_ls = []; next_channel = 0 };
  reseeding = false;
  pending_lookups = [];
}

abbrev wrong_key : MessagePayload Hash (LeaseSet ℕ)
wrong_key =
    database_store (record { key = 1 ∷ []; ds_type = 0; reply = none; payload = ri (2 ∷ []) })

handle_message_panics_iff_example :
    ((handle_message router_ops 5 idle (7 ∷ []) wrong_key).ending ≡ panicked)
    ↔ IsRejected router_ops 5 wrong_key
handle_message_panics_iff_example = handle_message_panics_iff router_ops 5 idle (7 ∷ []) wrong_key

abbrev pass : Turn Hash ℕ
pass = record {
  reseed_goes_on = false;
  reseed_enabled = true;
  expire_ri_fired = true;
  expire_ls_fired = true;
  explore_fired = true;
  random_key = 6 ∷ [];
  now = 2000;
  is_established = λ k. false;
  new_lookups = [];
  lookups_end = goes_on;
  ib = item ((7 ∷ []), wrong_key);
  client = item (known_routers 3);
}

started-IsValid_example :
    IsValid router_ops (run router_ops (λ db key. none) new_engine (pass ∷ pass ∷ [])).netdb
started-IsValid_example = started-IsValid router_ops (λ db key. none) (pass ∷ pass ∷ [])

from_ri_accepted_example :
    ((handle_message router_ops 1500 idle
        (7 ∷ [])
        (database_store (from_ri {LS = LeaseSet ℕ} router_ops.hash (2 ∷ []) none))).ending
      ≡ goes_on)
    × (HashMap.get
          (2 ∷ [])
          (handle_message router_ops 1500 idle (7 ∷ []) (
            database_store
              (from_ri {LS = LeaseSet ℕ} router_ops.hash (2 ∷ []) none))).after.netdb.ri_ds
        ≡ some (2 ∷ []))
from_ri_accepted_example =
    from_ri_accepted router_ops 1500 idle (7 ∷ []) (2 ∷ []) none refl refl
      (record { young = omega arith; started = omega arith })
