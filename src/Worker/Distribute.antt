-- ===== src/Worker/Distribute.antt =====
-- internal/worker/pool.go, distributeJobs: the order in which the jobs of a batch are handed to the
-- pool, the hosts taking turns. `parse` and `host` are net/url's Parse and the field Host; `arrange`
-- is the order that slices.SortedFunc gives to the keys of a map.
pub mod Order
mod Tests
use miniflux.Base.{
  ℕ, zero, suc, ◌+◌, ◌-◌, ◌*◌, ◌/◌, ◌%◌, ◌≤◌, ◌<◌, min, max, String, ◌≡◌, refl, sym, ap, ◌∙◌, ◌≢◌,
  ◌↔◌, ◌⊎◌, inl, inr, Bool, true, false, not, ◌&&◌, ◌||◌, Option, none, some, List, [], ◌∷◌, ◌++◌,
  map, reverse, arith, eq_iff, ltb, leb, nat_beq, if◌then◌else◌, ltb→lt, lt→ltb, leb→le,
  nat_beq_iff, tests, Eq, ◌==◌, nat_eq, string_eq, Bool-cases, Option-cases, beq_refl, eq_of_beq,
  ne_of_beq, beq_of_ne, length, get_elem?, length-append, All-mem, Memᴰ, any, keep, All, All-append,
  All-map, lookup, insert, lookup-insert, lookup-insert_self, length-insert_new,
}

-- model/job.go
pub record Job : Type 0 where
  pub user_id : ℕ
  pub feed_id : ℕ
  pub feed_url : String

-- A host with the jobs that perHost holds for it, the last one first. A host stands in the slice
-- `hosts` at most once, so the slice and the map are one list; perHost holds no empty list.
pub record Queue : Type 0 where
  pub host : String
  pub last : Job
  pub older : List Job

-- perHost[key] = append(perHost[key], j)
unfoldable pub add_job : String → Job → List Queue → List Queue
add_job key j [] = record { host = key; last = j; older = [] } ∷ []
add_job key j (q ∷ qs) =
    if q.host == key
    then record q { last = j; older = q.last ∷ q.older } ∷ qs
    else q ∷ add_job key j qs

-- What a round leaves of a host: `hosts[i]` stays, or becomes "".
pub data Slot : Type 0 where
  stays : Queue → Slot
  emptied : Slot

-- One host of the inner loop, after its job has been yielded.
unfoldable pub shorten : Queue → Slot
shorten q = elim q.older [
  | [] ↦ emptied
  | j ∷ js ↦ stays (record { host = q.host; last = j; older = js })
]

-- The inner loop: the jobs yielded, and the hosts afterwards.
unfoldable pub yielded : List Queue → List Job
yielded qs = map (λ q. q.last) qs

unfoldable pub shortened : List Queue → List Slot
shortened qs = map shorten qs

abbrev pub is_emptied : Slot → Bool
is_emptied emptied = true
is_emptied (stays q) = false

-- slices.DeleteFunc(hosts, host == "")
unfoldable pub delete_empty : List Slot → List Queue
delete_empty [] = []
delete_empty (emptied ∷ slots) = delete_empty slots
delete_empty (stays q ∷ slots) = if q.host == "" then delete_empty slots else q ∷ delete_empty slots

-- The hosts as they are where none was emptied.
unfoldable pub unchanged : List Slot → List Queue
unchanged [] = []
unchanged (emptied ∷ slots) = unchanged slots
unchanged (stays q ∷ slots) = q ∷ unchanged slots

-- `if deleted { hosts = slices.DeleteFunc(…) }`
unfoldable pub next_hosts : List Slot → List Queue
unfolding delete_empty unchanged
next_hosts slots = if any is_emptied slots then delete_empty slots else unchanged slots

-- `for len(hosts) > 0`, with fuel.
unfoldable pub rounds : ℕ → List Queue → List Job
unfolding yielded shortened next_hosts
rounds zero qs = []
rounds (suc fuel) [] = []
rounds (suc fuel) (q ∷ qs) = yielded (q ∷ qs) ++ rounds fuel (next_hosts (shortened (q ∷ qs)))

module _ {Url : Type 0} (parse : String → Option Url) (host : Url → String) where
  -- The key of perHost for a job.
  unfoldable pub key_of : Job → String
  key_of j = elim (parse j.feed_url) [ none ↦ j.feed_url | some u ↦ host u ]

  unfoldable pub per_host : List Queue → List Job → List Queue
  unfolding key_of add_job
  per_host qs [] = qs
  per_host qs (j ∷ js) = per_host (add_job (key_of j) j qs) js

  -- The jobs in the order in which distributeJobs yields them. A round yields at least one, so the
  -- number of jobs is fuel enough.
  unfoldable pub distribute_jobs : (List Queue → List Queue) → List Job → List Job
  unfolding rounds per_host
  distribute_jobs arrange jobs = rounds (length jobs) (arrange (per_host [] jobs))
