-- ===== src/Gpu/Invariant.antt =====
-- The invariants of the table gpu_work: its ids are unique, a resource has one holder at most, and
-- exactly the holders have a lease.
use personal_cloud_ai_servic.Prelude.{
  ◌≤◌, ◌≡◌, Bool, true, false, not, ◌&&◌, some, List, ◌∷◌, String, str_eq, eq_iff, subst, ◌⊎◌,
  arith, Bool-cases, if◌then◌else◌, inl, inr, find, find-none, any, any-find, count, update,
  count-update_le, count-replace, is_some,
}
use personal_cloud_ai_servic.Domain.Gpu.{GpuWork}
use personal_cloud_ai_servic.Gpu.{has_id, is_active, holds}

-- The table's CHECK: held and uncertain work has a lease token and a deadline, other work neither.
unfoldable pub lease_shaped : GpuWork → Bool
lease_shaped w =
    if is_active w.state
    then not (str_eq w.lease_token "") && is_some w.lease_until
    else str_eq w.lease_token "" && not (is_some w.lease_until)

abbrev misshaped : GpuWork → Bool
misshaped w = not (lease_shaped w)

pub record IsExclusive (works : List GpuWork) : Type 0 where
  pub unique_id : (id : String) → count (has_id id) works ≤ 1
  pub one_holder : (r : String) → count (holds r) works ≤ 1
  pub all_shaped : count misshaped works ≤ 0

-- A change of the rows that pass `q` which keeps id and resource, makes no holder and keeps the lease
-- in shape.
pub record IsTame (q : GpuWork → Bool) (f : GpuWork → GpuWork) : Type 0 where
  pub same_id : (w : GpuWork) → (f w).id ≡ w.id
  pub same_resource : (w : GpuWork) → (f w).resource_id ≡ w.resource_id
  pub no_holder :
      (w : GpuWork) → q w ≡ true → is_active (f w).state ≡ true → is_active w.state ≡ true
  pub shaped : (w : GpuWork) → q w ≡ true → lease_shaped w ≡ true → lease_shaped (f w) ≡ true

module _ (q : GpuWork → Bool) (f : GpuWork → GpuWork) (t : IsTame q f) where
  has_id-tame : (id : String) (w : GpuWork) → has_id id (f w) ≡ true → has_id id w ≡ true
  unfolding has_id
  has_id-tame id w h = rw (← t.same_id w) h

  holds-tame : (r : String) (w : GpuWork) → q w ≡ true → holds r (f w) ≡ true → holds r w ≡ true
  unfolding holds
  holds-tame r w e h = ground (arith, t.same_resource w, t.no_holder w)

  misshaped-tame : (w : GpuWork) → q w ≡ true → misshaped (f w) ≡ true → misshaped w ≡ true
  misshaped-tame w e h = ground (arith, t.shaped w)

  pub update-IsExclusive :
      (works : List GpuWork) → IsExclusive works → IsExclusive (update q f works)
  update-IsExclusive works h = record {
    unique_id = λ id.
        omega
          (arith, h.unique_id id, count-update_le (has_id id) q f works (λ w _. has_id-tame id w));
    one_holder =
        λ r. omega (arith, h.one_holder r, count-update_le (holds r) q f works (holds-tame r));
    all_shaped = omega (arith, h.all_shaped, count-update_le misshaped q f works misshaped-tame);
  }

has_id-insert :
    (w : GpuWork) (works : List GpuWork)
    → any (has_id w.id) works ≡ false
    → (id : String) → count (has_id id) works ≤ 1
    → count (has_id id) (w ∷ works) ≤ 1
unfolding count has_id
has_id-insert w works fresh id h = elim (Bool-cases (str_eq w.id id)) [
  | inl e ↦
      let none_yet : count (has_id id) works ≡ 0 =
        subst (λ i. count (has_id i) works ≡ 0) ((eq_iff w.id id).0 e)
          (find-none (has_id w.id) works (any-find (has_id w.id) works fresh)) in
      ground arith
  | inr e ↦ ground arith
]

-- A new row without a lease, under an id that no row has.
pub insert-IsExclusive :
    (w : GpuWork) (works : List GpuWork)
    → any (has_id w.id) works ≡ false
    → is_active w.state ≡ false
    → lease_shaped w ≡ true
    → IsExclusive works
    → IsExclusive (w ∷ works)
unfolding count holds has_id
insert-IsExclusive w works fresh idle shaped h = record {
  unique_id = λ id. has_id-insert w works fresh id (h.unique_id id);
  one_holder = λ r. ground (arith, h.one_holder r);
  all_shaped = ground (arith, h.all_shaped);
}

-- One row changes, found by its id. It becomes a holder only if it was one, or its resource has none.
module _ (f : GpuWork → GpuWork) (id : String) (w : GpuWork) (works : List GpuWork)
    (found : find (has_id id) works ≡ some w)
    (free : (is_active (f w).state ≡ true → is_active w.state ≡ true)
      ⊎ (count (holds w.resource_id) works ≡ 0))
    (same_id : (f w).id ≡ w.id) (same_resource : (f w).resource_id ≡ w.resource_id)
    (shaped : lease_shaped (f w) ≡ true) (h : IsExclusive works) where
  has_id-replace : (i : String) → count (has_id i) (update (has_id id) f works) ≤ 1
  unfolding has_id
  has_id-replace i =
      let moved = count-replace (has_id i) (has_id id) f works w found (h.unique_id id) in
      let same : has_id i (f w) ≡ has_id i w = rw same_id in ground (arith, h.unique_id i)

  holds-replace : (r : String) → count (holds r) (update (has_id id) f works) ≤ 1
  unfolding holds
  holds-replace r =
      let moved = count-replace (holds r) (has_id id) f works w found (h.unique_id id) in
      elim (Bool-cases (str_eq w.resource_id r)) [
        | inl e ↦
            let at_r : (count (holds w.resource_id) works ≡ 0) → (count (holds r) works ≡ 0) =
              subst (λ i. count (holds i) works ≡ 0) ((eq_iff w.resource_id r).0 e) in
            ground (arith, h.one_holder r)
        | inr e ↦ ground (arith, h.one_holder r)
      ]

  pub replace-IsExclusive : IsExclusive (update (has_id id) f works)
  replace-IsExclusive = record {
    unique_id = has_id-replace;
    one_holder = holds-replace;
    all_shaped =
        let moved = count-replace misshaped (has_id id) f works w found (h.unique_id id) in
        ground (arith, h.all_shaped);
  }
