-- ===== src/Transport/Session/Tests.antt =====
-- The session state with numbers for frames.
use ire.Prelude.{bytes_eq, ℕ, ◌≡◌, refl, true, false, some, List, [], ◌∷◌}
use ire.HashMap
use ire.Data.{Hash}
use ire.Transport.Session.{
  Shared, Done, Event, sends, opens, ends, open_session, send, drop_session, flush, waiting_of,
}
use ire.Transport.Session.Delivery.{IsDisjoint}
use ire.Transport.Session.Order.{InOrder, run-InOrder}
use ire.Transport.Session.Stale.{stale_drop_forgets}

abbrev peer : Hash
peer = 8 ∷ []

abbrev events : List (Event ℕ)
events = sends peer true 1 ∷ opens peer true 50 ∷ sends peer true 2 ∷ ends peer ∷ []

abbrev nobody : Shared ℕ
nobody = record { sessions = []; pending_sessions = [] }

nobody-IsDisjoint : IsDisjoint nobody
unfolding HashMap.get waiting_of
nobody-IsDisjoint k tx up = cc

run-InOrder_example : InOrder nobody events
run-InOrder_example = run-InOrder nobody events nobody-IsDisjoint (tt, (refl, (tt, (tt, tt))))

abbrev once : Done ℕ
once = record {
  after = record { sessions = (peer, 50) ∷ []; pending_sessions = [] };
  taken = true;
  connects = false;
  delivered = [];
}

abbrev twice : Done ℕ
twice = record {
  after = record { sessions = (peer, 51) ∷ []; pending_sessions = [] };
  taken = true;
  connects = false;
  delivered = [];
}

opened_once : open_session nobody true peer 50 ≡ some once
unfolding open_session flush waiting_of HashMap.get HashMap.insert HashMap.remove
opened_once = refl

opened_twice : open_session once.after true peer 51 ≡ some twice
unfolding open_session flush waiting_of HashMap.get HashMap.insert HashMap.remove
opened_twice = refl

stale_drop_forgets_example :
    (HashMap.get peer twice.after.sessions ≡ some 51)
    × ((send (drop_session twice.after peer) true peer 7).connects ≡ true)
    × ((send (drop_session twice.after peer) true peer 7).delivered ≡ [])
stale_drop_forgets_example =
    stale_drop_forgets nobody peer 50 51 once twice true 7 opened_once opened_twice
