-- ===== src/Worker/Distribute/Tests.antt =====
-- Batches of jobs, and the theorem at one of them. The hosts are arranged as they come.
use miniflux.Base.{ℕ, String, ◌≡◌, refl, some, List, [], ◌∷◌, nat_eq, string_eq}
use mathlib.Core.List.{Permᴰ}
use mathlib.Core.List.Permᴰ
use miniflux.Worker.Distribute.{shorten, Job, key_of, distribute_jobs}
use miniflux.Worker.Distribute.Order.{distribute_jobs-perm}

abbrev job : ℕ → String → Job
job n url = record { user_id = 1; feed_id = n; feed_url = url }

-- The host of a URL is the URL.
abbrev batch : List Job
batch = job 1 "a" ∷ job 2 "a" ∷ job 3 "b" ∷ job 4 "a" ∷ []

-- The hosts take turns; within a host the last job comes first.
turns :
    distribute_jobs (λ s. some s) (λ s. s) (λ qs. qs) batch
    ≡ job 4 "a" ∷ job 3 "b" ∷ job 2 "a" ∷ job 1 "a" ∷ []
unfolding distribute_jobs shorten
turns = refl

-- A job without a host is lost when another host runs out of jobs in the same round.
lost :
    distribute_jobs (λ s. some s) (λ s. s) (λ qs. qs) (job 1 "" ∷ job 2 "" ∷ job 3 "b" ∷ [])
    ≡ job 2 "" ∷ job 3 "b" ∷ []
unfolding distribute_jobs shorten
lost = refl

distribute_jobs-perm_example : Permᴰ (distribute_jobs (λ s. some s) (λ s. s) (λ qs. qs) batch) batch
unfolding key_of
distribute_jobs-perm_example =
    distribute_jobs-perm (λ s. some s) (λ s. s) (λ qs. qs) batch (λ qs. Permᴰ.refl qs)
      (λ e. cc, (λ e. cc, (λ e. cc, (λ e. cc, tt))))
