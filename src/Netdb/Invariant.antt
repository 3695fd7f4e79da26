-- ===== src/Netdb/Invariant.antt =====
-- The invariant of the database of src/netdb/mod.rs, kept by every operation that changes entries.
use ire.Prelude.{
  ap, ℕ, ◌≡◌, inl, inr, sym, ◌∙◌, subst, Bool, Option, some, arith, bytes_beq, bytes_beq_iff,
  bytes_eq, Result, ok, err, Bool-cases,
}
use ire.HashMap
use ire.HashMap.{IsDistinct, get-retain, insert-IsDistinct, retain-IsDistinct, keep-some, keep}
use ire.Data.{Hash}
use ire.Data.LeaseSet.{LeaseSet}
use ire.Netdb.{
  RouterInfoOps, Database, store_router_info, store_lease_set, expire_router_infos,
  expire_lease_sets, validate, keeps_router_info, store_checked, insert_router_info,
}
use ire.Netdb.Store.{IsGenuine, store_router_info_cases, validate_iff}

module _ {RI R : Type 0} (ops : RouterInfoOps RI) where
  -- One entry for a key, and every RouterInfo stands under its own hash, verifies and is of our
  -- network.
  pub record IsValid (db : Database RI R) : Type 0 where
    pub distinct : IsDistinct db.ri_ds
    pub ls_distinct : IsDistinct db.ls_ds
    pub genuine : (key : Hash) (ri : RI) → HashMap.get key db.ri_ds ≡ some ri → IsGenuine ops key ri

  pub checked-IsDistinct :
      (r : Result _ (Unit {0})) (db : Database RI R) (key : Hash) (ri : RI)
      → IsDistinct db.ri_ds
      → IsDistinct (store_checked r db key ri).after.ri_ds
  unfolding store_checked
  checked-IsDistinct (ok u) db key ri d =
      unfold insert_router_info in insert-IsDistinct key ri db.ri_ds d
  checked-IsDistinct (err e) db key ri d = d

  -- A store that any peer may cause keeps the invariant, whatever it is asked to store.
  pub store_router_info-IsValid :
      (now : ℕ) (db : Database RI R) (key : Hash) (ri : RI) (from_reseed : Bool)
      → IsValid db
      → IsValid (store_router_info ops now db key ri from_reseed).after
  store_router_info-IsValid now db key ri fr v =
      elim (store_router_info_cases ops now db key ri fr) [
        | inl (passed, s) ↦ record {
          distinct =
              unfold store_router_info in
              checked-IsDistinct (validate ops now key ri fr) db key ri v.distinct;
          ls_distinct = subst IsDistinct (sym s.lease_sets) v.ls_distinct;
          genuine = λ k r e. elim (Bool-cases (bytes_beq key k)) [
            | inl same ↦
                let g = ((validate_iff ops now key ri fr).0 passed).0 in
                let key_eq = (bytes_beq_iff key k).0 same in
                let ri_eq : ri ≡ r = ground (arith, s.entries k, same, e) in
                subst (λ x. IsGenuine ops x r) key_eq (subst (IsGenuine ops key) ri_eq g)
            | inr other ↦ v.genuine k r (ground (arith, s.entries k, other, e))
          ];
        }
        | inr (e, failed, unchanged) ↦ subst IsValid (sym (ap (λ s. s.after) unchanged)) v
      ]

  pub expire_router_infos-IsValid :
      (now : ℕ) (comms : Option (Hash → Bool)) (db : Database RI R)
      → IsValid db
      → IsValid (expire_router_infos ops now comms db)
  unfolding expire_router_infos
  expire_router_infos-IsValid now comms db v = record {
    distinct = retain-IsDistinct (keeps_router_info ops now comms) db.ri_ds v.distinct;
    ls_distinct = v.ls_distinct;
    genuine = λ key ri e.
        v.genuine key ri
          (keep-some (keeps_router_info ops now comms) key (HashMap.get key db.ri_ds) ri
            (sym (get-retain (keeps_router_info ops now comms) key db.ri_ds v.distinct) ∙ e)).0;
  }

  pub expire_lease_sets-IsValid :
      (now : ℕ) (db : Database RI R) → IsValid db → IsValid (expire_lease_sets now db)
  unfolding expire_lease_sets
  expire_lease_sets-IsValid now db v = record {
    distinct = v.distinct;
    ls_distinct = retain-IsDistinct _ db.ls_ds v.ls_distinct;
    genuine = v.genuine;
  }

  pub store_lease_set-IsValid :
      (db : Database RI R) (key : Hash) (ls : LeaseSet R)
      → IsValid db
      → IsValid (store_lease_set db key ls).after
  unfolding store_lease_set
  store_lease_set-IsValid db key ls v = record {
    distinct = v.distinct;
    ls_distinct = insert-IsDistinct key ls db.ls_ds v.ls_distinct;
    genuine = v.genuine;
  }
