-- ===== src/HashApi/Keygen/Jobs.antt =====
-- The jobs of one call of `fill` of vendor/hashapi/KeygenPool.cpp.
use x1miner.Base.{
  ℕ, zero, suc, ◌+◌, ◌-◌, ◌*◌, ◌/◌, ◌≤◌, ◌<◌, ◌≡◌, ap, ◌∙◌, arith, Bool, ◌&&◌, List, [], ◌∷◌, ltb,
  leb, if◌then◌else◌, length, length-append, tally, tally-append, min, max,
}
use native.Mathlib.Nat.{div-add-mod, mod-lt, zero-add}
use x1miner.HashApi.Keygen.{Job, Pool, push_job, push_jobs, fill, work, work_all}

-- The job writes key k.
abbrev pub writes : ℕ → Job → Bool
writes k j = leb j.first k && ltb k (j.first + j.count)

-- 1 for a key from `lo` on and before `hi`.
within : ℕ → ℕ → ℕ → ℕ
within lo hi k = if leb lo k && ltb k hi then 1 else 0

within_join :
    (a b e m k : ℕ)
    → a ≤ b
    → b ≤ e
    → within a (min m b) k + within b (min m e) k ≡ within a (min m e) k
unfolding within
within_join a b e m k h i = ground arith

within_none : (a m k : ℕ) → within a (min m a) k ≡ 0
unfolding within
within_none a m k = ground arith

within_all : (m e k : ℕ) → m ≤ e → within 0 (min m e) k ≡ (if ltb k m then 1 else 0)
unfolding within
within_all m e k h = ground arith

push_job-tally :
    (t chunk count k : ℕ) (p : Pool)
    → tally (writes k) (push_job t chunk count p).jobs
      ≡ tally (writes k) p.jobs + within (t * chunk) (min count (t * chunk + chunk)) k
unfolding push_job within
push_job-tally t chunk count k p =
    let j : Job = record { first = t * chunk; count = min count (t * chunk + chunk) - t * chunk } in
    ground (arith, tally-append (writes k) p.jobs (j ∷ []))

push_jobs-tally :
    (left t chunk count k : ℕ) (p : Pool)
    → tally (writes k) (push_jobs left t chunk count p).jobs
      ≡ tally (writes k) p.jobs + within (t * chunk) (min count ((t + left) * chunk)) k
unfolding push_jobs
push_jobs-tally zero t chunk count k p =
    let same : t + 0 ≡ t = omega arith in rw (same, within_none (t * chunk) count k) (omega arith)
push_jobs-tally (suc left) t chunk count k p =
    let here = push_job-tally t chunk count k p in
    let later = push_jobs-tally left (t + 1) chunk count k (push_job t chunk count p) in
    let next : (t + 1) * chunk ≡ t * chunk + chunk = omega arith in
    let last : t + suc left ≡ t + 1 + left = omega arith in
    let far : (t + 1 + left) * chunk ≡ t * chunk + chunk + left * chunk = omega arith in
    let joined =
      within_join (t * chunk) (t * chunk + chunk) ((t + 1 + left) * chunk) count k (omega arith)
        (omega arith) in
    let moved = (rw next at later) in rw last (omega (arith, here, moved, joined))

push_job-remaining :
    (left t chunk count : ℕ) (p : Pool)
    → p.remaining ≡ length p.jobs + suc left
    → let q = push_job t chunk count p in q.remaining ≡ length q.jobs + left
unfolding push_job
push_job-remaining left t chunk count p h =
    let j : Job = record { first = t * chunk; count = min count (t * chunk + chunk) - t * chunk } in
    ground (arith, length-append p.jobs (j ∷ []))

push_jobs-remaining :
    (left t chunk count : ℕ) (p : Pool)
    → p.remaining ≡ length p.jobs + left
    → let q = push_jobs left t chunk count p in q.remaining ≡ length q.jobs
unfolding push_jobs
push_jobs-remaining zero t chunk count p h = omega arith
push_jobs-remaining (suc left) t chunk count p h =
    push_jobs-remaining left (t + 1) chunk count (push_job t chunk count p)
      (push_job-remaining left t chunk count p h)

work_all-done :
    (js : List Job) (r : ℕ)
    → r ≡ length js
    → work_all js (record { jobs = js; remaining = r }) ≡ record { jobs = []; remaining = 0 }
unfolding work_all work
work_all-done [] r h = ap (λ n. record { jobs = []; remaining = n }) h
work_all-done (j ∷ js) r h = work_all-done js (r - 1) (omega arith)

-- Enough chunks of this size cover all keys.
chunks_cover : (u count : ℕ) → 0 < u → count ≤ u * ((count + u - 1) / u)
chunks_cover u count h = omega (arith, div-add-mod (count + u - 1) u, mod-lt (count + u - 1) h)

-- A call of `fill` cuts its keys so that each key of the arena is written by exactly one job and no
-- job writes behind the arena; `remaining` counts the jobs, so that when the workers have taken
-- them all it is 0 and the wait of `fill` ends.
pub fill_covers :
    (threads count : ℕ)
    → let p = fill threads count in
      ((k : ℕ) → tally (writes k) p.jobs ≡ (if ltb k count then 1 else 0))
      × (p.remaining ≡ length p.jobs)
      × (work_all p.jobs p ≡ record { jobs = []; remaining = 0 })
unfolding fill
fill_covers threads count =
    let u = max 1 (min (max 1 threads) count) in
    let chunk = (count + u - 1) / u in
    let start : Pool = record { jobs = []; remaining = u } in
    let remains = push_jobs-remaining u 0 chunk count start (omega arith) in
    let covered : count ≤ (0 + u) * chunk = omega (arith, chunks_cover u count (omega arith)) in
    (
      (λ k.
          push_jobs-tally u 0 chunk count k start
          ∙ ap (λ z. 0 + within z (min count ((0 + u) * chunk)) k) (omega arith)
          ∙ zero-add _
          ∙ within_all count ((0 + u) * chunk) k covered),
      remains,
      work_all-done (push_jobs u 0 chunk count start).jobs
          (push_jobs u 0 chunk count start).remaining remains,
    )
