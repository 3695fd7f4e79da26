-- ===== src/Bloom/Memory.antt =====
-- What the decaying filter remembers, and for how long (`feed` and `decay` of src/util.rs).
use ire.Prelude.{◌≤◌, true, false, List, [], ◌∷◌, ◌≡◌, Bytes, arith}
use ire.Bloom.{
  BloomFilter, DecayingBloomFilter, feed, decay, is_present, Use, feeds, decays, count_decays, run,
}

module _ (b : BloomFilter) where
  open b use {contains, insert}

  -- `x` is in the current layer: it survives one decay.
  abbrev pub IsCurrent : Bytes → DecayingBloomFilter b → Type 0
  IsCurrent x f = contains f.current x ≡ true

  abbrev pub IsPresent : Bytes → DecayingBloomFilter b → Type 0
  IsPresent x f = is_present b f x ≡ true

  pub feed-IsCurrent :
      (x y : Bytes) (f : DecayingBloomFilter b) → IsCurrent x f → IsCurrent x (feed b f y).0
  unfolding feed
  feed-IsCurrent x y f h = ground (arith, b.contains-insert f.current x y)

  pub feed-IsPresent :
      (x y : Bytes) (f : DecayingBloomFilter b) → IsPresent x f → IsPresent x (feed b f y).0
  unfolding feed
  feed-IsPresent x y f h = ground (arith, b.contains-insert f.current x y)

  pub feed-IsPresent_self : (x : Bytes) (f : DecayingBloomFilter b) → IsPresent x (feed b f x).0
  unfolding feed
  feed-IsPresent_self x f = ground (arith, b.contains-insert_self f.current x)

  pub feed-IsCurrent_fresh :
      (x : Bytes) (f : DecayingBloomFilter b) → (feed b f x).1 ≡ false → IsCurrent x (feed b f x).0
  unfolding feed
  feed-IsCurrent_fresh x f h = ground (arith, b.contains-insert_self f.current x)

  pub IsCurrent→IsPresent : (x : Bytes) (f : DecayingBloomFilter b) → IsCurrent x f → IsPresent x f
  unfolding is_present
  IsCurrent→IsPresent x f h = ground arith

  pub decay-IsPresent :
      (x : Bytes) (f : DecayingBloomFilter b) → IsCurrent x f → IsPresent x (decay b f)
  unfolding decay is_present
  decay-IsPresent x f h = ground arith

  pub feed-eq_present :
      (x : Bytes) (f : DecayingBloomFilter b) → IsPresent x f → (feed b f x).1 ≡ true
  unfolding feed
  feed-eq_present x f h = ground arith

  run-IsPresent :
      (x : Bytes) (us : List Use) (f : DecayingBloomFilter b)
      → count_decays us ≤ 0
      → IsPresent x f
      → IsPresent x (run b us f)
  unfolding run
  run-IsPresent x [] f n h = h
  run-IsPresent x (feeds y ∷ us) f n h =
      run-IsPresent x us (feed b f y).0 n (feed-IsPresent x y f h)
  run-IsPresent x (decays ∷ us) f n h = absurd (omega arith)

  run-IsPresent_current :
      (x : Bytes) (us : List Use) (f : DecayingBloomFilter b)
      → count_decays us ≤ 1
      → IsCurrent x f
      → IsPresent x (run b us f)
  unfolding run
  run-IsPresent_current x [] f n h = IsCurrent→IsPresent x f h
  run-IsPresent_current x (feeds y ∷ us) f n h =
      run-IsPresent_current x us (feed b f y).0 n (feed-IsCurrent x y f h)
  run-IsPresent_current x (decays ∷ us) f n h =
      run-IsPresent x us (decay b f) (omega arith) (decay-IsPresent x f h)

  -- Bytes that `feed` took as new are reported as a duplicate by every later `feed` until the
  -- second decay, whatever else was fed in between.
  pub feed_remembers :
      (f : DecayingBloomFilter b) (x : Bytes) (us : List Use)
      → (feed b f x).1 ≡ false
      → count_decays us ≤ 1
      → (feed b (run b us (feed b f x).0) x).1 ≡ true
  feed_remembers f x us fresh n =
      feed-eq_present x _ (run-IsPresent_current x us _ n (feed-IsCurrent_fresh x f fresh))

  -- After two decays in a row nothing is left: every string is new, whatever was fed before.
  pub decay_twice_forgets :
      (f : DecayingBloomFilter b) (x : Bytes) → (feed b (decay b (decay b f)) x).1 ≡ false
  unfolding feed decay
  decay_twice_forgets f x = ground (arith, b.contains-optimal f.max_elements x)

  -- Bytes found only in the previous layer are reported as a duplicate but not inserted again, so
  -- the next decay forgets them although they were fed within the last decay period.
  pub feed_no_refresh :
      (f : DecayingBloomFilter b) (x : Bytes)
      → contains f.current x ≡ false
      → contains f.previous x ≡ true
      → ((feed b f x).1 ≡ true) × ((feed b (decay b (feed b f x).0) x).1 ≡ false)
  unfolding feed decay
  feed_no_refresh f x c p = ground (arith, b.contains-optimal f.max_elements x)
