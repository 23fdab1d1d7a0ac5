-- ===== src/HashApi/Keygen.antt =====
-- vendor/hashapi/KeygenPool.cpp: how `fill` cuts the arena into jobs, and how workers finish them;
-- vendor/RandomHexKeyGenerator.h: the keys. The generator is the sequence of its 64-bit draws. A
-- position of the arena is counted in keys.
pub mod Jobs
pub mod Keys
use x1miner.Base.{
  ℕ, zero, suc, ◌+◌, ◌-◌, ◌*◌, ◌/◌, ◌%◌, ◌^◌, Bool, true, false, List, [], ◌∷◌, ◌++◌, ltb, leb,
  ◌==◌, if◌then◌else◌, length, take, min, max,
}
use x1miner.Base.Text.{Text, codes, lower}

-- `dst` and `count` of a job.
pub record Job : Type 0 where
  pub first : ℕ
  pub count : ℕ

-- The queue of the pool, and `remaining`.
pub record Pool : Type 0 where
  pub jobs : List Job
  pub remaining : ℕ

-- The turn of the loop for chunk `t`.
unfoldable pub push_job : ℕ → ℕ → ℕ → Pool → Pool
push_job t chunk count p =
    let first = t * chunk in
    let last = min count (first + chunk) in
    if leb count first
    then record p { remaining = p.remaining - 1 }
    else record p { jobs = p.jobs ++ record { first = first; count = last - first } ∷ [] }

-- The loop from chunk `t` on, over the `left` chunks that are left.
unfoldable pub push_jobs : ℕ → ℕ → ℕ → ℕ → Pool → Pool
push_jobs zero t chunk count p = p
push_jobs (suc left) t chunk count p = push_jobs left (t + 1) chunk count (push_job t chunk count p)

-- `fill` up to its wait, for a pool of `threads` threads.
unfoldable pub fill : ℕ → ℕ → Pool
unfolding push_jobs
fill threads count =
    let use_threads = max 1 (min (max 1 threads) count) in
    let chunk = (count + use_threads - 1) / use_threads in
    push_jobs use_threads 0 chunk count (record { jobs = []; remaining = use_threads })

-- One turn of `worker_loop` with a job to take: its keys are written, `remaining` falls. The worker
-- that takes `remaining` from 1 wakes the waiting `fill`.
unfoldable pub work : Pool → Pool
work p = elim p.jobs [ [] ↦ p | j ∷ js ↦ record { jobs = js; remaining = p.remaining - 1 } ]

unfoldable pub work_all : List Job → Pool → Pool
unfolding work
work_all [] p = p
work_all (j ∷ js) p = work_all js (work p)

-- `kHexChars[n]`
unfoldable pub hex_char : ℕ → ℕ
hex_char n = if ltb n 10 then b'0' + n else b'a' + (n - 10)

-- The inner loop: at most n digits of a draw, the low ones first, while `pos < len`.
unfoldable pub draw_digits : ℕ → ℕ → ℕ → Text
unfolding hex_char
draw_digits zero room x = []
draw_digits (suc n) zero x = []
draw_digits (suc n) (suc room) x = hex_char (x % 16) ∷ draw_digits n room (x / 16)

-- The outer loop, with `room` characters to write, from draw i on. Each turn writes a character, so
-- `room` turns are enough fuel.
unfoldable pub fill_rest : ℕ → ℕ → (ℕ → ℕ) → ℕ → Text
unfolding draw_digits
fill_rest zero room draws i = []
fill_rest (suc fuel) room draws i =
    let digits = draw_digits 16 room (draws i) in
    let rest = fill_rest fuel (room - length digits) draws (i + 1) in
    if room == 0 then [] else digits ++ rest

-- `fillKey` of a buffer of `len` characters.
unfoldable pub fill_key : Text → ℕ → (ℕ → ℕ) → Text
unfolding fill_rest
fill_key prefix len draws =
    let pre = min (length prefix) len in
    take pre prefix ++ fill_rest (len - pre) (len - pre) draws 0

-- `setPrefix`, then `nextRandomKey`.
unfoldable pub next_random_key : Text → ℕ → (ℕ → ℕ) → Text
unfolding fill_key
next_random_key prefix total_length draws = fill_key (lower prefix) total_length draws
