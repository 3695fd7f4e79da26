-- ===== src/Netdb/Closest.antt =====
-- `select_closest_ff` of src/netdb/mod.rs: the known floodfill nearest to a key by the XOR metric.
-- The crates sha2 and chrono are parameters: the digest, and the date as `format("%Y%m%d")` gives it.
use ire.Prelude.{
  bytes_beq_self, ◌≡◌, ◌↔◌, refl, sym, ap, ◌∙◌, subst, inl, inr, Bool, true, Option, none, some,
  List, [], ◌∷◌, ◌++◌, arith, if◌then◌else◌, Bytes, bytes_eq, Bool-cases, bytes_beq, bytes_beq_iff,
}
use ire.HashMap
use ire.HashMap.{HashMap, IsDistinct}
use ire.Data.{Hash, xor_bytes}
use ire.Netdb.Metric.{bytes_le, min_by_key, min_by_key-some, min_by_key-none, Has}
use ire.Netdb.{RouterInfoOps, Database}

-- `create_routing_key`
unfoldable pub create_routing_key : (Bytes → Bytes) → Bytes → Hash → Hash
create_routing_key sha256 date key = sha256 (key ++ date)

-- `XorMetric::for_hash`
unfoldable pub for_hash : Hash → Hash → Bytes
for_hash hash key = xor_bytes hash key

get-cons_later :
    {V : Type 0} (j k : Hash) (v r : V) (m : HashMap Hash V)
    → HashMap.get j m ≡ none
    → HashMap.get k m ≡ some r
    → HashMap.get k ((j, v) ∷ m) ≡ some r
unfolding HashMap.get
get-cons_later j k v r m absent found = elim (Bool-cases (bytes_beq j k)) [
  | inl same ↦
      let e : j ≡ k = (bytes_beq_iff j k).0 same in
      absurd (cc (subst (λ x. HashMap.get x m ≡ none) e absent))
  | inr other ↦ rw other found
]

module _ {RI : Type 0} (p : RI → Bool) where
  -- `values().filter(p)`
  unfoldable pub filter_values : HashMap Hash RI → List RI
  filter_values [] = []
  filter_values ((k, r) ∷ m) = let rest = filter_values m in if p r then r ∷ rest else rest

  -- `r` stands in the map under some key, and passes the test.
  pub record IsCandidate (m : HashMap Hash RI) (r : RI) : Type 0 where
    pub key : Hash
    pub known : HashMap.get key m ≡ some r
    pub passes : p r ≡ true

  IsCandidate-cons :
      (j : Hash) (s r : RI) (m : HashMap Hash RI)
      → HashMap.get j m ≡ none
      → IsCandidate m r
      → IsCandidate ((j, s) ∷ m) r
  IsCandidate-cons j s r m absent c = record {
    key = c.key;
    known = get-cons_later j c.key s r m absent c.known;
    passes = c.passes;
  }

  IsCandidate-head :
      (j : Hash) (s r : RI) (m : HashMap Hash RI) → p s ≡ true → r ≡ s → IsCandidate ((j, s) ∷ m) r
  unfolding HashMap.get
  IsCandidate-head j s r m passes e = record {
    key = j;
    known = rw (bytes_beq_self j, e) refl;
    passes = rw e passes;
  }

  pub filter_values-IsCandidate :
      (m : HashMap Hash RI) (r : RI) → IsDistinct m → Has r (filter_values m) → IsCandidate m r
  unfolding filter_values
  filter_values-IsCandidate [] r d h = absurd h
  filter_values-IsCandidate ((j, s) ∷ m) r d h = elim (Bool-cases (p s)) [
    | inl passes ↦ elim (rw passes at h) [
      | inl e ↦ IsCandidate-head j s r m passes e
      | inr later ↦ IsCandidate-cons j s r m d.0 (filter_values-IsCandidate m r d.1 later)
    ]
    | inr fails ↦ IsCandidate-cons j s r m d.0 (filter_values-IsCandidate m r d.1 (rw fails at h))
  ]

  pub filter_values-Has :
      (m : HashMap Hash RI) (k : Hash) (r : RI)
      → HashMap.get k m ≡ some r
      → p r ≡ true
      → Has r (filter_values m)
  unfolding filter_values HashMap.get
  filter_values-Has [] k r known passes = cc
  filter_values-Has ((j, s) ∷ m) k r known passes = elim (Bool-cases (bytes_beq j k)) [
    | inl same ↦
        let e : s ≡ r = ground (arith, same) in
        subst (λ (t : Bool). Has r (if t then s ∷ filter_values m else filter_values m))
          (sym (ap p e ∙ passes)) (inl (sym e))
    | inr other ↦
        let rest = filter_values-Has m k r (ground (arith, other)) passes in
        elim (Bool-cases (p s)) [ inl t ↦ rw t (inr rest) | inr f ↦ rw f rest ]
  ]

module _ {RI : Type 0} (ops : RouterInfoOps RI) (sha256 : Bytes → Bytes) (date : Bytes) where
  -- The distance of a router from a key, as `select_closest_ff` measures it.
  unfoldable pub distance : Hash → RI → Bytes
  unfolding create_routing_key for_hash
  distance key ri = for_hash (ops.hash ri) (create_routing_key sha256 date key)

  selected_of :
      (m : HashMap Hash RI) (key : Hash) (o : Option RI) (r : RI)
      → min_by_key (distance key) (filter_values ops.is_floodfill m) ≡ o
      → IsCandidate ops.is_floodfill m r
      → (ff : RI) × (o ≡ some ff)
  selected_of m key (some ff) r e c = (ff, refl)
  selected_of m key none r e c = absurd (
      subst (Has r) (min_by_key-none (distance key) (filter_values ops.is_floodfill m) e)
        (filter_values-Has ops.is_floodfill m c.key r c.known c.passes))

module _ {RI R : Type 0} (ops : RouterInfoOps RI) (sha256 : Bytes → Bytes) (date : Bytes) where
  unfoldable pub select_closest_ff : Database RI R → Hash → Option RI
  select_closest_ff db key =
      min_by_key (distance ops sha256 date key) (filter_values ops.is_floodfill db.ri_ds)

  -- What is selected is a known floodfill, and no known floodfill is nearer to the key.
  pub select_closest_ff-some :
      (db : Database RI R) (key : Hash) (ff : RI)
      → IsDistinct db.ri_ds
      → select_closest_ff db key ≡ some ff
      → IsCandidate ops.is_floodfill db.ri_ds ff
        × ((r : RI)
            → IsCandidate ops.is_floodfill db.ri_ds r
            → bytes_le (distance ops sha256 date key ff) (distance ops sha256 date key r) ≡ true)
  unfolding select_closest_ff
  select_closest_ff-some db key ff d h =
      let values = filter_values ops.is_floodfill db.ri_ds in
      let (here, least) = min_by_key-some (distance ops sha256 date key) values ff h in
      (
        filter_values-IsCandidate ops.is_floodfill db.ri_ds ff d here,
        λ r c. least r (filter_values-Has ops.is_floodfill db.ri_ds c.key r c.known c.passes),
      )

  -- As soon as some floodfill is known, something is selected.
  select_closest_ff_finds :
      (db : Database RI R) (key : Hash) (r : RI)
      → IsCandidate ops.is_floodfill db.ri_ds r
      → (ff : RI) × (select_closest_ff db key ≡ some ff)
  unfolding select_closest_ff
  select_closest_ff_finds db key r c = selected_of ops sha256 date db.ri_ds key _ r refl c

  none_selected :
      (db : Database RI R) (key : Hash) (o : Option RI)
      → IsDistinct db.ri_ds
      → select_closest_ff db key ≡ o
      → ((r : RI) → IsCandidate ops.is_floodfill db.ri_ds r → ⊥)
      → o ≡ none
  none_selected db key none d e h = refl
  none_selected db key (some ff) d e h = absurd (h ff (select_closest_ff-some db key ff d e).0)

  -- Nothing is selected exactly when no floodfill is known, whatever other routers are.
  pub select_closest_ff-none :
      (db : Database RI R) (key : Hash)
      → IsDistinct db.ri_ds
      → (select_closest_ff db key ≡ none) ↔ ((r : RI) → IsCandidate ops.is_floodfill db.ri_ds r → ⊥)
  select_closest_ff-none db key d = (
    λ e r c. let (ff, found) = select_closest_ff_finds db key r c in cc (e, found),
    none_selected db key (select_closest_ff db key) d refl,
  )
