-- ===== src/Sv2/Store/Ring.antt =====
-- The bounded ring of jobs: InMemoryJobStore of crates/datum-stratum-sv2/src/lib.rs.
use mathlib.Core.Bool.{true≢false}
use mathlib.Core.List.{cons≢nil, head-eq_of_cons-eq, tail-eq_of_cons-eq}
use datum_rs.Common.{
  ℕ, suc, ◌≤◌, ◌≡◌, refl, sym, ap, ◌∙◌, arith, true, false, Bool-cases, inl, inr, List, [], ◌∷◌,
  ◌++◌, length, length-append, leb, ◌==◌, ==_iff, some,
}
use datum_rs.Sv2.Store.{
  ExtendedJob, InMemoryJobStore, find_job, contains_key, insert_job, evict_oldest, put_job, get_job,
}

abbrev pub ids : List ExtendedJob → List ℕ
ids [] = []
ids (j ∷ jobs) = j.job_id ∷ ids jobs

length-ids : (jobs : List ExtendedJob) → length (ids jobs) ≡ length jobs
length-ids [] = refl
length-ids (j ∷ jobs) = ap suc (length-ids jobs)

-- The order is that of the jobs, and they are no more than the capacity.
pub record IsRing (s : InMemoryJobStore) : Type 0 where
  pub ordered : ids s.jobs ≡ s.order
  pub bounded : length s.order ≤ s.capacity
  pub room : 1 ≤ s.capacity

same_id : (n : ℕ) → (n == n) ≡ true
same_id n = ground arith

find_job-insert_job :
    (job : ExtendedJob) (jobs : List ExtendedJob)
    → find_job job.job_id (insert_job job jobs) ≡ some job
find_job-insert_job job [] = rw (same_id job.job_id) refl
find_job-insert_job job (j ∷ jobs) = elim (Bool-cases (j.job_id == job.job_id)) [
  | inl is ↦ rw (is, same_id job.job_id) refl
  | inr off ↦ rw (off, off) (find_job-insert_job job jobs)
]

ids-replaced :
    (job : ExtendedJob) (jobs : List ExtendedJob)
    → contains_key (find_job job.job_id jobs) ≡ true
    → ids (insert_job job jobs) ≡ ids jobs
ids-replaced job [] h = absurd (true≢false (sym h))
ids-replaced job (j ∷ jobs) h = elim (Bool-cases (j.job_id == job.job_id)) [
  | inl is ↦ rw is (ap (λ (n : ℕ). n ∷ ids jobs) (sym ((==_iff j.job_id job.job_id).0 is)))
  | inr off ↦ rw off (ap (◌∷◌ j.job_id) (ids-replaced job jobs (rw off at h)))
]

ids-added :
    (job : ExtendedJob) (jobs : List ExtendedJob)
    → contains_key (find_job job.job_id jobs) ≡ false
    → ids (insert_job job jobs) ≡ ids jobs ++ (job.job_id ∷ [])
ids-added job [] h = refl
ids-added job (j ∷ jobs) h = elim (Bool-cases (j.job_id == job.job_id)) [
  | inl is ↦ absurd (true≢false (rw is at h))
  | inr off ↦ rw off (ap (◌∷◌ j.job_id) (ids-added job jobs (rw off at h)))
]

-- The store after a put, with what the tests gave.
IsRing-put :
    (job : ExtendedJob) (s : InMemoryJobStore) (jobs : List ExtendedJob) (order : List ℕ)
    → contains_key (find_job job.job_id jobs) ≡ false
    → ids jobs ≡ order
    → suc (length order) ≤ s.capacity
    → 1 ≤ s.capacity
    → IsRing (record s { order = order ++ (job.job_id ∷ []); jobs = insert_job job jobs })
IsRing-put job s jobs order h o b r = record {
  ordered = ids-added job jobs h ∙ ap (λ (xs : List ℕ). xs ++ (job.job_id ∷ [])) o;
  bounded = omega (arith, length-append order (job.job_id ∷ []), b);
  room = r;
}

absent_below :
    (job_id : ℕ) (j : ExtendedJob) (jobs : List ExtendedJob)
    → contains_key (find_job job_id (j ∷ jobs)) ≡ false
    → contains_key (find_job job_id jobs) ≡ false
absent_below job_id j jobs h = elim (Bool-cases (j.job_id == job_id)) [
  | inl is ↦ absurd (true≢false (rw is at h))
  | inr off ↦ rw off at h
]

-- The oldest job has gone, which is the first.
IsRing-evict :
    (job : ExtendedJob) (s : InMemoryJobStore) (order : List ℕ) (jobs : List ExtendedJob)
    → contains_key (find_job job.job_id jobs) ≡ false
    → ids jobs ≡ order
    → length order ≤ s.capacity
    → s.capacity ≤ length jobs
    → 1 ≤ s.capacity
    → IsRing (record s {
      order = (evict_oldest order jobs).0 ++ (job.job_id ∷ []);
      jobs = insert_job job (evict_oldest order jobs).1;
    })
IsRing-evict job s order [] h o b full r = absurd (omega (arith, full, r))
IsRing-evict job s [] (j ∷ jobs) h o b full r = absurd (cons≢nil o)
IsRing-evict job s (e ∷ order) (j ∷ jobs) h o b full r = rw first (
    IsRing-put job s jobs order (absent_below job.job_id j jobs h) (tail-eq_of_cons-eq o)
      (omega (arith, b)) r)
  where
    first : (j.job_id == e) ≡ true
    first = (==_iff j.job_id e).1 (head-eq_of_cons-eq o)

-- A store that is a ring stays one when a job is put into it, and then has that job under its id.
pub put_job-IsRing :
    (job : ExtendedJob) (s : InMemoryJobStore)
    → IsRing s
    → IsRing (put_job job s) × (get_job job.job_id (put_job job s) ≡ some job)
unfolding put_job get_job
put_job-IsRing job s ring = elim (Bool-cases (contains_key (find_job job.job_id s.jobs))) [
  | inl known ↦ rw known (
    record {
      ordered = ids-replaced job s.jobs known ∙ ring.ordered;
      bounded = ring.bounded;
      room = ring.room;
    },
    find_job-insert_job job s.jobs,
  )
  | inr fresh ↦ elim (Bool-cases (leb s.capacity (length s.jobs))) [
    | inl full ↦
        rw (fresh, full)
          (
            IsRing-evict job s s.order s.jobs fresh ring.ordered ring.bounded (ground (arith, full))
                ring.room,
            find_job-insert_job job (evict_oldest s.order s.jobs).1,
          )
    | inr free ↦
        rw (fresh, free)
          (
            IsRing-put job s s.jobs s.order fresh ring.ordered
                (ground (arith, free, length-ids s.jobs, ap length ring.ordered)) ring.room,
            find_job-insert_job job s.jobs,
          )
  ]
]
