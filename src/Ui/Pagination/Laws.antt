-- ===== src/Ui/Pagination/Laws.antt =====
-- The links of a page lead through the list: next and previous undo each other, and the links to
-- the next page end at the last page.
use miniflux.Base.{
  ℕ, zero, suc, ◌+◌, ◌*◌, ◌/◌, ◌%◌, ◌≤◌, ◌<◌, String, ◌≡◌, refl, ◌≢◌, ◌↔◌, inl, inr, true, false,
  arith, nat_beq, lt→ltb, nat_beq_iff, nat_eq, string_eq, Bool-cases, ne_of_beq,
}
use miniflux.Base.Int.{ℤ, pos, ◌+ℤ◌, ◌-ℤ◌, ltb_ℤ}
use native.Mathlib.Omega.{div_any}
use native.Mathlib.Nat.{mod-lt}
use miniflux.Ui.Pagination.{last_offset_of, get_pagination}

pos-add : (a b : ℕ) → pos a +ℤ pos b ≡ pos (a + b)
unfolding ◌+ℤ◌
pos-add a b = ground arith

add-sub : (a b : ℕ) → pos (a + b) -ℤ pos b ≡ pos a
unfolding ◌-ℤ◌
add-sub a b = ground arith

-- Whether the page at an offset has a next page.
has_next :
    (total offset n : ℕ) → (ltb_ℤ (pos n) (pos total -ℤ pos offset) ≡ true) ↔ (offset + n < total)
unfolding ◌-ℤ◌
has_next total offset n = ground arith

-- Where a page has a next page, that page starts one page further, within the list, and its link to
-- the previous page leads back.
pub get_pagination_next :
    (route : String) (total offset n : ℕ)
    → 0 < n
    → (get_pagination route (pos total) (pos offset) n).show_next ≡ true
    → (let page = get_pagination route (pos total) (pos offset) n in
        let next = get_pagination route (pos total) page.next_offset n in
        (page.next_offset ≡ pos (offset + n))
        × (offset + n < total)
        × (next.show_prev ≡ true)
        × (next.prev_offset ≡ pos offset))
unfolding get_pagination
get_pagination_next route total offset n h s =
    let shown = lt→ltb 0 (offset + n + 0) (omega arith) in
    rw (s, pos-add offset n)
      (refl, (has_next total offset n).0 s, shown, rw (shown, add-sub offset n) refl)

no_next :
    (total offset n : ℕ) → total ≤ offset + n → ltb_ℤ (pos n) (pos total -ℤ pos offset) ≡ false
no_next total offset n h = elim (Bool-cases (ltb_ℤ (pos n) (pos total -ℤ pos offset))) [
  | inl shown ↦ absurd (let m = (has_next total offset n).0 shown in omega arith)
  | inr hidden ↦ hidden
]

pred_of : (q n total : ℕ) → q * n ≡ total → 0 < total → (p : ℕ) × (p * n + n ≡ total)
pred_of zero n total e t = absurd (grind arith)
pred_of (suc p) n total e t = (p, grind arith)

last_even :
    (total n q k : ℕ)
    → total / n ≡ q
    → q * n ≡ total
    → k * n + n ≡ total
    → last_offset_of (pos total) n ≡ pos (k * n)
last_even total n q k e even whole =
    let same = (nat_beq_iff (q * n + 0) (total + 0)).1 (omega arith) in
    let split : q * n ≡ k * n + n = omega arith in rw (e, same, split) (add-sub (k * n) n)

last_of :
    (total n q : ℕ)
    → total / n ≡ q
    → 0 < n
    → 0 < total
    → (k : ℕ) × (last_offset_of (pos total) n ≡ pos (k * n)) × (k * n < total) × (total ≤ k * n + n)
last_of total n q e h t =
    let parts : n * q + total % n ≡ total = rw e at (div_any total n) in
    let turned : n * q ≡ q * n = grind arith in
    let small = mod-lt total h in
    elim (Bool-cases (nat_beq (q * n + 0) (total + 0))) [
      | inl even ↦
          let whole_pages : q * n ≡ total =
            let same = (nat_beq_iff (q * n + 0) (total + 0)).0 even in omega arith in
          let before = pred_of q n total whole_pages t in
          (
            before.0,
            last_even total n q before.0 e whole_pages before.1,
            omega (arith, before.1),
            omega (arith, before.1),
          )
      | inr odd ↦
          let apart : q * n + 0 ≢ total + 0 = ne_of_beq (q * n + 0) (total + 0) odd in
          (q, rw (e, odd) refl, omega arith, omega arith)
    ]

-- In a list that is not empty, the last page starts at a multiple of the page size, within the
-- list and at most one page before its end, and it has no next page.
pub get_pagination_last :
    (route : String) (total n : ℕ) (offset : ℤ)
    → 0 < n
    → 0 < total
    → (k : ℕ) × ((get_pagination route (pos total) offset n).last_offset ≡ pos (k * n))
      × (k * n < total)
      × (total ≤ k * n + n)
      × ((get_pagination route (pos total) (pos (k * n)) n).show_next ≡ false)
unfolding get_pagination
get_pagination_last route total n offset h t =
    let (k, last, inside, near) = last_of total n (total / n) refl h t in
    (k, last, inside, near, no_next total (k * n) n near)
