-- ===== src/Worker/Distribute/Order.antt =====
-- distributeJobs yields every job once, where every job has a host.
use miniflux.Base.{
  ℕ, zero, suc, ◌≤◌, ◌<◌, String, ◌≡◌, refl, ap, ◌∙◌, ◌≢◌, inl, inr, Option, List, [], ◌∷◌, ◌++◌,
  arith, ◌==◌, nat_eq, string_eq, Bool-cases, ne_of_beq, beq_of_ne, length, length-append, any, All,
}
use mathlib.Core.List.{Permᴰ, append-nil}
use mathlib.Core.Path.{subst}
use mathlib.Core.List.Permᴰ
use miniflux.Worker.Distribute.{
  Job, Queue, add_job, Slot, stays, emptied, shorten, yielded, shortened, is_emptied, delete_empty,
  unchanged, next_hosts, rounds, key_of, per_host, distribute_jobs,
}

-- The jobs that wait in the queues.
abbrev pub waiting : List Queue → List Job
waiting [] = []
waiting (q ∷ qs) = q.last ∷ (q.older ++ waiting qs)

abbrev pub left_in : List Slot → List Job
left_in [] = []
left_in (emptied ∷ slots) = left_in slots
left_in (stays q ∷ slots) = q.last ∷ (q.older ++ left_in slots)

waiting-unchanged : (slots : List Slot) → waiting (unchanged slots) ≡ left_in slots
unfolding unchanged
waiting-unchanged [] = refl
waiting-unchanged (emptied ∷ slots) = waiting-unchanged slots
waiting-unchanged (stays q ∷ slots) = rw (waiting-unchanged slots)

-- The host of a slot is not "".
abbrev IsNamed : Slot → Type 0
IsNamed emptied = Unit
IsNamed (stays q) = q.host ≢ ""

waiting-delete_empty :
    (slots : List Slot) → All IsNamed slots → waiting (delete_empty slots) ≡ left_in slots
unfolding delete_empty
waiting-delete_empty [] h = refl
waiting-delete_empty (emptied ∷ slots) h = waiting-delete_empty slots h.1
waiting-delete_empty (stays q ∷ slots) h =
    rw (beq_of_ne q.host "" h.0, waiting-delete_empty slots h.1)

waiting-next_hosts :
    (slots : List Slot) → All IsNamed slots → waiting (next_hosts slots) ≡ left_in slots
unfolding next_hosts
waiting-next_hosts slots h = elim (Bool-cases (any is_emptied slots)) [
  | inl some_emptied ↦ rw some_emptied (waiting-delete_empty slots h)
  | inr none_emptied ↦ rw none_emptied (waiting-unchanged slots)
]

front : (ys os ls : List Job) → Permᴰ (ys ++ (os ++ ls)) (os ++ (ys ++ ls))
front ys [] ls = Permᴰ.refl (ys ++ ls)
front ys (o ∷ os) ls = Permᴰ.trans (Permᴰ.middle o ys (os ++ ls)) (Permᴰ.cons refl (front ys os ls))

left_in-shorten :
    (q : Queue) (slots : List Slot) → left_in (shorten q ∷ slots) ≡ q.older ++ left_in slots
unfolding shorten
left_in-shorten q slots = go q.older refl
  where
    go : (js : List Job) → q.older ≡ js → left_in (shorten q ∷ slots) ≡ q.older ++ left_in slots
    go [] e = rw (e, shorten) refl
    go (j ∷ js) e = rw (e, shorten) refl

-- A round and what it leaves are the jobs that waited.
round-perm : (qs : List Queue) → Permᴰ (yielded qs ++ left_in (shortened qs)) (waiting qs)
unfolding yielded shortened
round-perm [] = Permᴰ.nil
round-perm (q ∷ qs) = rw (left_in-shorten q (shortened qs)) (
    Permᴰ.cons refl (
      Permᴰ.trans (front (yielded qs) q.older (left_in (shortened qs)))
        (Permᴰ.append_left q.older (round-perm qs))))

abbrev pub HasHost : Queue → Type 0
HasHost q = q.host ≢ ""

shorten-IsNamed : (q : Queue) → HasHost q → IsNamed (shorten q)
unfolding shorten
shorten-IsNamed q h = go q.older refl
  where
    go : (js : List Job) → q.older ≡ js → IsNamed (shorten q)
    go [] e = rw (e, shorten) tt
    go (j ∷ js) e = rw (e, shorten) h

shortened-IsNamed : (qs : List Queue) → All HasHost qs → All IsNamed (shortened qs)
unfolding shortened
shortened-IsNamed [] h = tt
shortened-IsNamed (q ∷ qs) h = (shorten-IsNamed q h.0, shortened-IsNamed qs h.1)

delete_empty-HasHost : (slots : List Slot) → All HasHost (delete_empty slots)
unfolding delete_empty
delete_empty-HasHost [] = tt
delete_empty-HasHost (emptied ∷ slots) = delete_empty-HasHost slots
delete_empty-HasHost (stays q ∷ slots) = elim (Bool-cases (q.host == "")) [
  | inl gone ↦ rw gone (delete_empty-HasHost slots)
  | inr named ↦ rw named (ne_of_beq q.host "" named, delete_empty-HasHost slots)
]

unchanged-HasHost : (slots : List Slot) → All IsNamed slots → All HasHost (unchanged slots)
unfolding unchanged
unchanged-HasHost [] h = tt
unchanged-HasHost (emptied ∷ slots) h = unchanged-HasHost slots h.1
unchanged-HasHost (stays q ∷ slots) h = (h.0, unchanged-HasHost slots h.1)

next_hosts-HasHost : (slots : List Slot) → All IsNamed slots → All HasHost (next_hosts slots)
unfolding next_hosts
next_hosts-HasHost slots h = elim (Bool-cases (any is_emptied slots)) [
  | inl some_emptied ↦ rw some_emptied (delete_empty-HasHost slots)
  | inr none_emptied ↦ rw none_emptied (unchanged-HasHost slots h)
]

pub Permᴰ-length {ℓ} : {A : Type ℓ} {xs ys : List A} → Permᴰ xs ys → length xs ≡ length ys
Permᴰ-length Permᴰ.nil = refl
Permᴰ-length (Permᴰ.cons e p) = ap suc (Permᴰ-length p)
Permᴰ-length (Permᴰ.swap e e') = refl
Permᴰ-length (Permᴰ.trans p q) = Permᴰ-length p ∙ Permᴰ-length q

yielded_pos : (q : Queue) (qs : List Queue) → 0 < length (yielded (q ∷ qs))
unfolding yielded
yielded_pos q qs = omega arith

rounds-perm :
    (fuel : ℕ) (qs : List Queue)
    → All HasHost qs
    → length (waiting qs) ≤ fuel
    → Permᴰ (rounds fuel qs) (waiting qs)
unfolding rounds
rounds-perm zero [] h enough = Permᴰ.nil
rounds-perm zero (q ∷ qs) h enough = absurd (omega arith)
rounds-perm (suc fuel) [] h enough = Permᴰ.nil
rounds-perm (suc fuel) (q ∷ qs) h enough =
    let slots = shortened (q ∷ qs) in
    let named = shortened-IsNamed (q ∷ qs) h in
    let round = round-perm (q ∷ qs) in
    let rest = rounds-perm fuel (next_hosts slots) (next_hosts-HasHost slots named) (
      rw (waiting-next_hosts slots named) (
        omega (
          arith,
          Permᴰ-length round,
          length-append (yielded (q ∷ qs)) (left_in slots),
          yielded_pos q qs,
        ))) in
    Permᴰ.trans (Permᴰ.append_left (yielded (q ∷ qs)) (rw (waiting-next_hosts slots named) at rest))
      round

waiting-add_job :
    (key : String) (j : Job) (qs : List Queue) → Permᴰ (waiting (add_job key j qs)) (j ∷ waiting qs)
unfolding add_job
waiting-add_job key j [] = Permᴰ.refl _
waiting-add_job key j (q ∷ qs) = elim (Bool-cases (q.host == key)) [
  | inl same ↦ rw same (Permᴰ.refl _)
  | inr other ↦ rw other (
      Permᴰ.trans (Permᴰ.append_left (q.last ∷ q.older) (waiting-add_job key j qs))
        (Permᴰ.middle j (q.last ∷ q.older) (waiting qs)))
]

add_job-HasHost :
    (key : String) (j : Job) (qs : List Queue)
    → key ≢ ""
    → All HasHost qs
    → All HasHost (add_job key j qs)
unfolding add_job
add_job-HasHost key j [] k h = (k, tt)
add_job-HasHost key j (q ∷ qs) k h = elim (Bool-cases (q.host == key)) [
  | inl same ↦ rw same h
  | inr other ↦ rw other (h.0, add_job-HasHost key j qs k h.1)
]

waiting-perm : {qs rs : List Queue} → Permᴰ qs rs → Permᴰ (waiting qs) (waiting rs)
waiting-perm Permᴰ.nil = Permᴰ.nil
waiting-perm (Permᴰ.cons {b} e p) = rw e (Permᴰ.append_left (b.last ∷ b.older) (waiting-perm p))
waiting-perm (Permᴰ.swap {a'} {b'} {l} e e') =
    rw (e, e') (front (b'.last ∷ b'.older) (a'.last ∷ a'.older) (waiting l))
waiting-perm (Permᴰ.trans p q) = Permᴰ.trans (waiting-perm p) (waiting-perm q)

All-perm : (P : Queue → Type 0) {qs rs : List Queue} → Permᴰ qs rs → All P qs → All P rs
All-perm P Permᴰ.nil h = tt
All-perm P (Permᴰ.cons e p) h = (subst P e h.0, All-perm P p h.1)
All-perm P (Permᴰ.swap e e') h = (subst P e' h.1.0, (subst P e h.0, h.1.1))
All-perm P (Permᴰ.trans p q) h = All-perm P q (All-perm P p h)

module _ {Url : Type 0} (parse : String → Option Url) (host : Url → String) where
  waiting-per_host :
      (qs : List Queue) (js : List Job)
      → Permᴰ (waiting (per_host parse host qs js)) (js ++ waiting qs)
  unfolding per_host
  waiting-per_host qs [] = Permᴰ.refl _
  waiting-per_host qs (j ∷ js) =
      let key = key_of parse host j in
      Permᴰ.trans (waiting-per_host (add_job key j qs) js) (
        Permᴰ.trans (Permᴰ.append_left js (waiting-add_job key j qs))
          (Permᴰ.middle j js (waiting qs)))

  per_host-HasHost :
      (qs : List Queue) (js : List Job)
      → All HasHost qs
      → All (λ j. key_of parse host j ≢ "") js
      → All HasHost (per_host parse host qs js)
  unfolding per_host
  per_host-HasHost qs [] h k = h
  per_host-HasHost qs (j ∷ js) h k =
      let key = key_of parse host j in
      per_host-HasHost (add_job key j qs) js (add_job-HasHost key j qs k.0 h) k.1

  -- distributeJobs yields every job of a batch exactly once, in whatever order the hosts are
  -- arranged, if no job has the empty host.
  pub distribute_jobs-perm :
      (arrange : List Queue → List Queue) (jobs : List Job)
      → ((qs : List Queue) → Permᴰ (arrange qs) qs)
      → All (λ j. key_of parse host j ≢ "") jobs
      → Permᴰ (distribute_jobs parse host arrange jobs) jobs
  unfolding distribute_jobs
  distribute_jobs-perm arrange jobs arranged named =
      let queues = per_host parse host [] jobs in
      let order = waiting-perm (arranged queues) in
      let all = Permᴰ.trans order (waiting-per_host [] jobs) in
      let len = Permᴰ-length all in
      let hosts =
        All-perm HasHost (Permᴰ.symm (arranged queues)) (per_host-HasHost [] jobs tt named) in
      Permᴰ.trans
        (rounds-perm (length jobs) (arrange queues) hosts
          (omega (arith, len, length-append jobs [])))
        (rw append-nil at all)
