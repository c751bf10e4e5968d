-- ===== src/Ui/Pagination/Tests.antt =====
-- Pages of a list of 25 entries, and the theorems at them.
use miniflux.Base.{ℕ, ◌+◌, ◌*◌, ◌≤◌, ◌<◌, ◌≡◌, refl, true, false, arith, nat_eq, string_eq}
use miniflux.Base.Int.{pos, negsuc, ◌-ℤ◌}
use miniflux.Ui.Pagination.{get_pagination}
use miniflux.Ui.Pagination.Laws.{get_pagination_next, get_pagination_last}

-- An empty list has its last page before its start.
empty : (get_pagination "/unread" (pos 0) (pos 0) 10).last_offset ≡ negsuc 9
unfolding get_pagination ◌-ℤ◌
empty = refl

get_pagination_next_example :
    (let page = get_pagination "/unread" (pos 25) (pos 10) 10 in
      let next = get_pagination "/unread" (pos 25) page.next_offset 10 in
      (page.next_offset ≡ pos (10 + 10))
      × (10 + 10 < 25)
      × (next.show_prev ≡ true)
      × (next.prev_offset ≡ pos 10))
unfolding get_pagination ◌-ℤ◌
get_pagination_next_example = get_pagination_next "/unread" 25 10 10 (omega arith) refl

get_pagination_last_example :
    (k : ℕ) × ((get_pagination "/unread" (pos 25) (pos 10) 10).last_offset ≡ pos (k * 10))
    × (k * 10 < 25)
    × (25 ≤ k * 10 + 10)
    × ((get_pagination "/unread" (pos 25) (pos (k * 10)) 10).show_next ≡ false)
get_pagination_last_example =
    get_pagination_last "/unread" 25 10 (pos 10) (omega arith) (omega arith)
