-- ===== src/Bloom/Tests.antt =====
-- An exact set as the filter's parameter, the sequence of the unit test of src/util.rs, and the
-- theorems at concrete inputs.
use ire.Prelude.{true, false, [], ◌∷◌, ◌≡◌, refl, Bytes, arith}
use ire.Bloom.{DecayingBloomFilter, new, feed, decay, feeds, decays, run}
use ire.Bloom.Memory.{feed_remembers, feed_no_refresh, decay_twice_forgets}
use ire.Bloom.Exact.{exact}

abbrev first : Bytes
first = 0 ∷ 0 ∷ []

abbrev second : Bytes
second = 1 ∷ 1 ∷ []

abbrev one_decay : DecayingBloomFilter exact
one_decay = record { current = []; previous = first ∷ []; max_elements = 10 }

fresh_then_known : (feed exact (feed exact (new exact 10) first).0 first).1 ≡ true
unfolding feed new
fresh_then_known = refl

kept_by_one_decay : run exact (feeds first ∷ decays ∷ []) (new exact 10) ≡ one_decay
unfolding feed new run decay
kept_by_one_decay = refl

feed_remembers_example :
    (feed exact
      (run exact (feeds second ∷ decays ∷ feeds second ∷ []) (feed exact (new exact 10) first).0)
      first).1
    ≡ true
unfolding feed new
feed_remembers_example =
    feed_remembers exact (new exact 10) first (feeds second ∷ decays ∷ feeds second ∷ []) refl
      (omega arith)

decay_twice_forgets_example : (feed exact (decay exact (decay exact one_decay)) first).1 ≡ false
decay_twice_forgets_example = decay_twice_forgets exact one_decay first

feed_no_refresh_example :
    ((feed exact one_decay first).1 ≡ true)
    × ((feed exact (decay exact (feed exact one_decay first).0) first).1 ≡ false)
feed_no_refresh_example = feed_no_refresh exact one_decay first refl refl
