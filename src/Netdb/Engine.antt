-- ===== src/Netdb/Engine.antt =====
-- `Engine` of src/netdb/mod.rs and `Query::handle` of src/netdb/client.rs. The three states of
-- `poll` are three steps on the engine's state; timers, channels, random keys and the reseeder's
-- answer are their input, and what they start or answer is their output.
pub mod Kept
pub mod Panic
mod Tests
use ire.Prelude.{
  ℕ, Bool, true, false, not, ◌&&◌, Option, none, some, List, [], ◌∷◌, ◌++◌, length, ltb,
  if◌then◌else◌, Bytes, bytes_eq, bytes_beq, bytes_beq_iff, Eq, Result, ok, err, ◌≡◌, ◌↔◌, arith,
  ap,
}
use ire.Netdb.{
  new_database, count_routers, RouterInfoOps, StoreError, Database, Stored, store_router_info,
  store_lease_set, expire_router_infos, expire_lease_sets,
}
use ire.HashMap
use ire.HashMap.{HashMap}
use ire.Data.{Hash}
use ire.Data.LeaseSet.{LeaseSet}
use ire.I2np.{
  MessagePayload, database_store, database_search_reply, DatabaseStore, DatabaseStoreData, ri, ls,
  DatabaseSearchReply,
}
use ire.Netdb.Lookup.{Lookup, lookup_router_info, lookup_lease_set}

pub pair_beq_iff : (p q : Hash × Hash) → (bytes_beq p.0 q.0 && bytes_beq p.1 q.1 ≡ true) ↔ (p ≡ q)
pair_beq_iff (a, b) (c, d) = (
  λ h. ground (arith, bytes_beq_iff a c, bytes_beq_iff b d),
  λ e.
      let first = (bytes_beq_iff a c).1 (ap (λ (p : Hash × Hash). p.0) e) in
      let second = (bytes_beq_iff b d).1 (ap (λ (p : Hash × Hash). p.1) e) in ground arith,
)

instance abbrev pub pair_eq : Eq (Hash × Hash)
pair_eq = record { beq = λ p q. bytes_beq p.0 q.0 && bytes_beq p.1 q.1; beq_iff = pair_beq_iff }

-- What `poll` of a channel answers: an item, its end (`Ready(None)`), nothing yet, or an error.
pub data Polled (A : Type 0) : Type 0 where
  item : A → Polled A
  ended nothing broken : Polled A

-- The queries of src/netdb/client.rs; a number is the sender of the query's answer.
pub data Query (RI R : Type 0) : Type 0 where
  known_routers : ℕ → Query RI R
  select_closest_floodfill : Hash → ℕ → Query RI R
  look_up_ri : Hash → ℕ → Option RI → ℕ → Query RI R
  look_up_ls : Hash → ℕ → Option Hash → ℕ → Query RI R
  store_ri : Hash → RI → Bool → ℕ → Query RI R
  store_ls : Hash → LeaseSet R → ℕ → Query RI R

-- What the engine starts or answers.
pub data Effect (RI R : Type 0) : Type 0 where
  reseeds : Effect RI R
  explores : Hash → RI → Effect RI R
  notifies : List ℕ → Effect RI R
  replies : ℕ → DatabaseSearchReply → Effect RI R
  answers_count : ℕ → ℕ → Effect RI R
  answers_ff : ℕ → Option RI → Effect RI R
  answers_ri : ℕ → Lookup RI RI → Effect RI R
  answers_ls : ℕ → Lookup RI (LeaseSet R) → Effect RI R
  answers_store_ri : ℕ → Result StoreError (Option RI) → Effect RI R
  answers_store_ls : ℕ → Result StoreError (Option (LeaseSet R)) → Effect RI R

-- The state; the timers and channels are input. `reseeding` is whether a reseed is active.
pub record Engine (RI R : Type 0) : Type 0 where
  pub netdb : Database RI R
  pub reseeding : Bool
  pub pending_lookups : HashMap (Hash × Hash) ℕ

-- `Engine::new`
unfoldable pub new_engine : {RI R : Type 0} → Engine RI R
new_engine = record { netdb = new_database; reseeding = false; pending_lookups = [] }

-- The state after a step and its effects, or how `poll` ends: `NotReady`, `Ready(())`, an error, or
-- the panic of `expect`.
pub data Ending : Type 0 where
  goes_on waits finished error panicked : Ending

pub record Done (RI R : Type 0) : Type 0 where
  pub after : Engine RI R
  pub effects : List (Effect RI R)
  pub ending : Ending

abbrev pub minimum_routers : ℕ
minimum_routers = 50

abbrev pub keep_routers : ℕ
keep_routers = 150

-- `.expect(…)` on what a store returns.
unfoldable pub expect : {A : Type 0} → Result StoreError A → Ending
expect (ok a) = goes_on
expect (err e) = panicked

unfoldable pub reply_to : {RI R : Type 0} → Option ℕ → DatabaseSearchReply → List (Effect RI R)
reply_to none dsr = []
reply_to (some tx) dsr = replies tx dsr ∷ []

module _ {RI R : Type 0} (ops : RouterInfoOps RI)
    (select_closest_ff : Database RI R → Hash → Option RI) where
  -- `Query::handle`
  unfoldable pub handle_query : ℕ → Database RI R → Query RI R → Database RI R × List (Effect RI R)
  handle_query now db (known_routers tx) = (db, answers_count tx (count_routers db) ∷ [])
  handle_query now db (select_closest_floodfill key tx) =
      (db, answers_ff tx (select_closest_ff db key) ∷ [])
  handle_query now db (look_up_ri key timeout_ms peer tx) =
      let r = lookup_router_info select_closest_ff db key timeout_ms peer in
      (r.0, answers_ri tx r.1 ∷ [])
  handle_query now db (look_up_ls key timeout_ms dest tx) =
      let r = lookup_lease_set select_closest_ff db key timeout_ms in (r.0, answers_ls tx r.1 ∷ [])
  handle_query now db (store_ri key r from_reseed tx) =
      let s = store_router_info ops now db key r from_reseed in
      (s.after, notifies s.notified ∷ answers_store_ri tx s.outcome ∷ [])
  handle_query now db (store_ls key l tx) =
      let s = store_lease_set db key l in
      (s.after, notifies s.notified ∷ answers_store_ls tx s.outcome ∷ [])

module _ {RI R : Type 0} (ops : RouterInfoOps RI) where
  unfoldable pub handle_store :
      ℕ → Engine RI R → Hash → DatabaseStoreData RI (LeaseSet R) → Done RI R
  unfolding expect
  handle_store now e key (ri r) =
      let s = store_router_info ops now e.netdb key r false in
      record {
        after = record e { netdb = s.after };
        effects = notifies s.notified ∷ [];
        ending = expect s.outcome;
      }
  handle_store now e key (ls l) =
      let s = store_lease_set e.netdb key l in
      record {
        after = record e { netdb = s.after };
        effects = notifies s.notified ∷ [];
        ending = expect s.outcome;
      }

  -- `match msg.payload`
  unfoldable pub handle_message :
      ℕ → Engine RI R → Hash → MessagePayload RI (LeaseSet R) → Done RI R
  unfolding handle_store reply_to
  handle_message now e from (database_store ds) = handle_store now e ds.key ds.payload
  handle_message now e from (database_search_reply dsr) = record {
    after = record e { pending_lookups = HashMap.remove (from, dsr.key) e.pending_lookups };
    effects = reply_to (HashMap.get (from, dsr.key) e.pending_lookups) dsr;
    ending = goes_on;
  }
  handle_message now e from other = record { after = e; effects = []; ending = goes_on }

-- What the outside answers in one pass: whether an active reseed goes on, the setting, the timers
-- that fired, the random key, the time, `is_established` of the transports, the lookups registered
-- and how that channel ends (`item` cannot be), and the two message channels.
pub record Turn (RI R : Type 0) : Type 0 where
  pub reseed_goes_on : Bool
  pub reseed_enabled : Bool
  pub expire_ri_fired : Bool
  pub expire_ls_fired : Bool
  pub explore_fired : Bool
  pub random_key : Hash
  pub now : ℕ
  pub is_established : Hash → Bool
  pub new_lookups : List ((Hash × Hash) × ℕ)
  pub lookups_end : Ending
  pub ib : Polled (Hash × MessagePayload RI (LeaseSet R))
  pub client : Polled (Query RI R)

-- `self.pending_lookups.insert((from, key), tx)` for each.
unfoldable pub add_lookups :
    List ((Hash × Hash) × ℕ) → HashMap (Hash × Hash) ℕ → HashMap (Hash × Hash) ℕ
add_lookups [] m = m
add_lookups ((k, tx) ∷ later) m = add_lookups later (HashMap.insert k tx m)

-- The step `CheckReseed`.
unfoldable pub check_reseed : {RI R : Type 0} → Engine RI R → Turn RI R → Done RI R
check_reseed e t =
    let active = e.reseeding && t.reseed_goes_on in
    if t.reseed_enabled && not active && ltb (count_routers e.netdb) minimum_routers
    then record { after = record e { reseeding = true }; effects = reseeds ∷ []; ending = goes_on }
    else record { after = record e { reseeding = active }; effects = []; ending = goes_on }

unfoldable pub explore : {RI R : Type 0} → Hash → Option RI → List (Effect RI R)
explore key none = []
explore key (some ff) = explores key ff ∷ []

module _ {RI R : Type 0} (ops : RouterInfoOps RI)
    (select_closest_ff : Database RI R → Hash → Option RI) where
  -- Both expiry timers, on the database.
  unfoldable pub expire : Database RI R → Turn RI R → Database RI R
  expire db t =
      let kept =
        if t.expire_ri_fired && not (ltb (count_routers db) keep_routers)
        then expire_router_infos ops t.now (some t.is_established) db
        else db in
      if t.expire_ls_fired then expire_lease_sets t.now kept else kept

  -- The step `Timers`.
  unfoldable pub timers : Engine RI R → Turn RI R → Done RI R
  unfolding explore
  timers e t =
      let db = expire e.netdb t in
      record {
        after = record e { netdb = db };
        effects =
            if t.explore_fired
            then explore t.random_key (select_closest_ff db t.random_key)
            else [];
        ending = goes_on;
      }

  -- The client's query, if there is one.
  unfoldable pub then_query : ℕ → Done RI R → Query RI R → Done RI R
  then_query now d q =
      let r = handle_query ops select_closest_ff now d.after.netdb q in
      record {
        after = record d.after { netdb = r.0 };
        effects = d.effects ++ r.1;
        ending = goes_on;
      }

  -- A message and then a query, unless the message made the engine panic.
  unfoldable pub message_and_query : ℕ → Done RI R → Query RI R → Ending → Done RI R
  unfolding then_query
  message_and_query now d q goes_on = then_query now d q
  message_and_query now d q other = d

  -- What the two channels answered.
  unfoldable pub dispatch :
      ℕ
      → Engine RI R
      → Polled (Hash × MessagePayload RI (LeaseSet R))
      → Polled (Query RI R)
      → Done RI R
  unfolding message_and_query then_query
  dispatch now e broken c = record { after = e; effects = []; ending = error }
  dispatch now e ended broken = record { after = e; effects = []; ending = error }
  dispatch now e nothing broken = record { after = e; effects = []; ending = error }
  dispatch now e (item m) broken = record { after = e; effects = []; ending = error }
  dispatch now e ended ended = record { after = e; effects = []; ending = finished }
  dispatch now e ended nothing = record { after = e; effects = []; ending = finished }
  dispatch now e ended (item q) = record { after = e; effects = []; ending = finished }
  dispatch now e nothing ended = record { after = e; effects = []; ending = finished }
  dispatch now e (item m) ended = record { after = e; effects = []; ending = finished }
  dispatch now e nothing nothing = record { after = e; effects = []; ending = waits }
  dispatch now e (item (from, msg)) nothing = handle_message ops now e from msg
  dispatch now e nothing (item q) =
      then_query now (record { after = e; effects = []; ending = goes_on }) q
  dispatch now e (item (from, msg)) (item q) =
      let d = handle_message ops now e from msg in message_and_query now d q d.ending

  -- The step `Messages`: the channel of registered lookups first, which may end the loop.
  unfoldable pub messages_after : Engine RI R → Turn RI R → Ending → Done RI R
  unfolding dispatch
  messages_after e t goes_on = dispatch t.now e t.ib t.client
  messages_after e t other = record { after = e; effects = []; ending = other }

  unfoldable pub messages : Engine RI R → Turn RI R → Done RI R
  unfolding messages_after
  messages e t =
      messages_after (record e { pending_lookups = add_lookups t.new_lookups e.pending_lookups }) t
        t.lookups_end

  -- The three steps of one pass.
  unfoldable pub turn : Engine RI R → Turn RI R → Done RI R
  turn e t =
      let first = check_reseed e t in
      let second = timers first.after t in
      let third = messages second.after t in
      record third { effects = first.effects ++ second.effects ++ third.effects }

  -- Passes one after the other; after `waits`, `poll` is called again.
  abbrev pub again : Ending → Bool
  again goes_on = true
  again waits = true
  again other = false

  unfoldable pub run : Engine RI R → List (Turn RI R) → Engine RI R
  run e [] = e
  run e (t ∷ ts) =
      let d = turn e t in let rest = run d.after ts in if again d.ending then rest else d.after
