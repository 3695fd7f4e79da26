-- ===== src/Netdb/Engine/Kept.antt =====
-- The engine of src/netdb/mod.rs keeps the invariant of its database, and when it panics.
use ire.Prelude.{
  ℕ, ◌≡◌, inl, inr, sym, subst, Bool, true, false, not, ◌&&◌, Option, some, List, [], ◌∷◌,
  if◌then◌else◌, ltb, Bool-cases, arith,
}
use ire.Netdb.Engine.{
  new_engine, Query, known_routers, select_closest_floodfill, look_up_ri, look_up_ls, store_ri,
  store_ls, Engine, Ending, goes_on, waits, finished, error, panicked, Done, Polled, item, ended,
  nothing, broken, handle_query, handle_store, handle_message, Turn, check_reseed, expire, timers,
  then_query, message_and_query, dispatch, messages_after, messages, turn, again, run, keep_routers,
}
use ire.Netdb.{new_database, count_routers, RouterInfoOps, Database, expire_router_infos}
use ire.HashMap
use ire.HashMap.{HashMap}
use ire.Data.{Hash}
use ire.Data.LeaseSet.{LeaseSet}
use ire.I2np.{MessagePayload, DatabaseStoreData, database_store, database_search_reply, ri, ls}
use ire.Netdb.Invariant.{
  IsValid, store_router_info-IsValid, expire_router_infos-IsValid, expire_lease_sets-IsValid,
  store_lease_set-IsValid,
}
use ire.Netdb.Lookup.{lookup_router_info, lookup_lease_set}

module _ {RI R : Type 0} (ops : RouterInfoOps RI) where
  if-IsValid :
      (c : Bool) (x y : Database RI R)
      → IsValid ops x
      → IsValid ops y
      → IsValid ops (if c then x else y)
  if-IsValid true x y v w = v
  if-IsValid false x y v w = w

module _ {RI R : Type 0} (ops : RouterInfoOps RI)
    (select_closest_ff : Database RI R → Hash → Option RI) where
  lookup-IsValid :
      (db : Database RI R) (key : Hash) (t : ℕ) (peer : Option RI)
      → IsValid ops db
      → IsValid ops (lookup_router_info select_closest_ff db key t peer).0
  unfolding lookup_router_info
  lookup-IsValid db key t peer v = record {
    distinct = v.distinct;
    ls_distinct = v.ls_distinct;
    genuine = v.genuine;
  }

  lookup_ls-IsValid :
      (db : Database RI R) (key : Hash) (t : ℕ)
      → IsValid ops db
      → IsValid ops (lookup_lease_set select_closest_ff db key t).0
  unfolding lookup_lease_set
  lookup_ls-IsValid db key t v = record {
    distinct = v.distinct;
    ls_distinct = v.ls_distinct;
    genuine = v.genuine;
  }

  handle_query-IsValid :
      (now : ℕ) (db : Database RI R) (q : Query RI R)
      → IsValid ops db
      → IsValid ops (handle_query ops select_closest_ff now db q).0
  unfolding handle_query
  handle_query-IsValid now db (known_routers tx) v = v
  handle_query-IsValid now db (select_closest_floodfill key tx) v = v
  handle_query-IsValid now db (look_up_ri key t peer tx) v = lookup-IsValid db key t peer v
  handle_query-IsValid now db (look_up_ls key t dest tx) v = lookup_ls-IsValid db key t v
  handle_query-IsValid now db (store_ri key r fr tx) v =
      store_router_info-IsValid ops now db key r fr v
  handle_query-IsValid now db (store_ls key l tx) v = store_lease_set-IsValid ops db key l v

  expire-IsValid :
      (db : Database RI R) (t : Turn RI R)
      → IsValid ops db
      → IsValid ops (expire ops select_closest_ff db t)
  unfolding expire
  expire-IsValid db t v =
      let expired = expire_router_infos ops t.now (some t.is_established) db in
      let kept_valid =
        if-IsValid ops (t.expire_ri_fired && not (ltb (count_routers db) keep_routers)) expired db
          (expire_router_infos-IsValid ops t.now (some t.is_established) db v) v in
      if-IsValid ops t.expire_ls_fired _ _ (expire_lease_sets-IsValid ops t.now _ kept_valid)
        kept_valid

  handle_store-IsValid :
      (now : ℕ) (e : Engine RI R) (key : Hash) (d : DatabaseStoreData RI (LeaseSet R))
      → IsValid ops e.netdb
      → IsValid ops (handle_store ops now e key d).after.netdb
  unfolding handle_store
  handle_store-IsValid now e key (ri r) v = store_router_info-IsValid ops now e.netdb key r false v
  handle_store-IsValid now e key (ls l) v = store_lease_set-IsValid ops e.netdb key l v

  handle_message-IsValid :
      (now : ℕ) (e : Engine RI R) (from : Hash) (m : MessagePayload RI (LeaseSet R))
      → IsValid ops e.netdb
      → IsValid ops (handle_message ops now e from m).after.netdb
  unfolding handle_message
  handle_message-IsValid now e from (database_store ds) v =
      handle_store-IsValid now e ds.key ds.payload v
  handle_message-IsValid now e from (database_search_reply dsr) v = v
  handle_message-IsValid now e from other v = v

  then_query-IsValid :
      (now : ℕ) (d : Done RI R) (q : Query RI R)
      → IsValid ops d.after.netdb
      → IsValid ops (then_query ops select_closest_ff now d q).after.netdb
  unfolding then_query
  then_query-IsValid now d q v = handle_query-IsValid now d.after.netdb q v

  message_and_query-IsValid :
      (now : ℕ) (d : Done RI R) (q : Query RI R) (o : Ending)
      → IsValid ops d.after.netdb
      → IsValid ops (message_and_query ops select_closest_ff now d q o).after.netdb
  unfolding message_and_query
  message_and_query-IsValid now d q goes_on v = then_query-IsValid now d q v
  message_and_query-IsValid now d q waits v = v
  message_and_query-IsValid now d q finished v = v
  message_and_query-IsValid now d q error v = v
  message_and_query-IsValid now d q panicked v = v

  dispatch-IsValid :
      (now : ℕ) (e : Engine RI R) (m : Polled (Hash × MessagePayload RI (LeaseSet R)))
      (q : Polled (Query RI R))
      → IsValid ops e.netdb
      → IsValid ops (dispatch ops select_closest_ff now e m q).after.netdb
  unfolding dispatch
  dispatch-IsValid now e broken c v = v
  dispatch-IsValid now e ended broken v = v
  dispatch-IsValid now e nothing broken v = v
  dispatch-IsValid now e (item m) broken v = v
  dispatch-IsValid now e ended ended v = v
  dispatch-IsValid now e ended nothing v = v
  dispatch-IsValid now e ended (item q) v = v
  dispatch-IsValid now e nothing ended v = v
  dispatch-IsValid now e (item m) ended v = v
  dispatch-IsValid now e nothing nothing v = v
  dispatch-IsValid now e (item (from, msg)) nothing v = handle_message-IsValid now e from msg v
  dispatch-IsValid now e nothing (item q) v =
      then_query-IsValid now (record { after = e; effects = []; ending = goes_on }) q v
  dispatch-IsValid now e (item (from, msg)) (item q) v =
      let d = handle_message ops now e from msg in
      message_and_query-IsValid now d q d.ending (handle_message-IsValid now e from msg v)

  messages_after-IsValid :
      (e : Engine RI R) (t : Turn RI R) (o : Ending)
      → IsValid ops e.netdb
      → IsValid ops (messages_after ops select_closest_ff e t o).after.netdb
  unfolding messages_after
  messages_after-IsValid e t goes_on v = dispatch-IsValid t.now e t.ib t.client v
  messages_after-IsValid e t waits v = v
  messages_after-IsValid e t finished v = v
  messages_after-IsValid e t error v = v
  messages_after-IsValid e t panicked v = v

  check_reseed-netdb : (e : Engine RI R) (t : Turn RI R) → (check_reseed e t).after.netdb ≡ e.netdb
  unfolding check_reseed
  check_reseed-netdb e t = ground arith

  turn-IsValid :
      (e : Engine RI R) (t : Turn RI R)
      → IsValid ops e.netdb
      → IsValid ops (turn ops select_closest_ff e t).after.netdb
  unfolding turn timers messages
  turn-IsValid e t v = messages_after-IsValid _ t t.lookups_end (
      expire-IsValid (check_reseed e t).after.netdb t
        (subst (IsValid ops) (sym (check_reseed-netdb e t)) v))

  -- Over any passes, whatever peers send and clients ask, each key has one entry and every
  -- RouterInfo in the database stands under its own hash, verifies and is of our network.
  pub run-IsValid :
      (e : Engine RI R) (ts : List (Turn RI R))
      → IsValid ops e.netdb
      → IsValid ops (run ops select_closest_ff e ts).netdb
  unfolding run
  run-IsValid e [] v = v
  run-IsValid e (t ∷ ts) v =
      let d = turn ops select_closest_ff e t in
      let first = turn-IsValid e t v in
      elim (Bool-cases (again ops select_closest_ff d.ending)) [
        | inl more ↦ rw more (run-IsValid d.after ts first)
        | inr over ↦ rw over first
      ]

  -- A new engine has nothing in its database.
  new_engine-IsValid : IsValid ops (new_engine {RI = RI} {R = R}).netdb
  unfolding new_engine new_database HashMap.get
  new_engine-IsValid = record { distinct = tt; ls_distinct = tt; genuine = λ k r e. cc }

  -- Over any passes of a new engine, whatever peers send and clients ask, each key has one entry and
  -- every RouterInfo in the database stands under its own hash, verifies and is of our network.
  pub started-IsValid :
      (ts : List (Turn RI R)) → IsValid ops (run ops select_closest_ff new_engine ts).netdb
  started-IsValid ts = run-IsValid new_engine ts new_engine-IsValid
