-- ===== src/Pagination/Pages.antt =====
-- Bounds of limits and offsets, and the order of pages.
use jimm.Prelude.{
  ℕ, zero, suc, ap, ◌∙◌, ◌+◌, ◌*◌, ◌%◌, ◌^◌, ◌≤◌, ◌<◌, ◌≡◌, Option, none, some, nat_eq, ltb, String,
  if◌then◌else◌, arith,
}
use jimm.Pagination.{
  word, sign, less, negative, default_limit, cap_limit, new_offset_filter, new_openfga_filter,
  asked, LimitOffsetPagination, create_pagination, create_pagination_without_total,
}

abbrev pub Bounded : LimitOffsetPagination → Type 0
Bounded f = (1 ≤ f.limit) × (f.limit ≤ 200) × (f.offset < sign)

cap_limit-le :
    (default maximum limit : ℕ)
    → 1 ≤ default
    → 1 ≤ maximum
    → (1 ≤ cap_limit maximum (default_limit default limit))
      × (cap_limit maximum (default_limit default limit) ≤ maximum)
unfolding cap_limit default_limit
cap_limit-le default maximum limit d m = (ground arith, ground arith)

filter-Bounded : (limit offset : ℕ) → Bounded (new_offset_filter limit offset)
unfolding new_offset_filter
filter-Bounded limit offset =
    let (low, high) = cap_limit-le 50 200 limit (omega arith) (omega arith) in
    (low, high, ground arith)

-- Whatever sizes, pages and totals a request gives, also absent, negative or overflowing ones: the
-- filters of CreatePagination and CreatePaginationWithoutTotal have a limit from 1 to 200 and an
-- offset that is not negative, and a filter of NewOpenFGAFilter has a limit from 1 to 100.
pub pagination-Bounded :
    (size page : Option ℕ) (total limit : ℕ) (token : String)
    → Bounded (create_pagination size page total).filter
      × Bounded (create_pagination_without_total size page).2
      × (1 ≤ (new_openfga_filter limit token).limit)
      × ((new_openfga_filter limit token).limit ≤ 100)
unfolding create_pagination create_pagination_without_total new_openfga_filter
pagination-Bounded size page total limit token = (
  filter-Bounded (asked size page).0 (asked size page).2,
  filter-Bounded (((asked size page).0 + 1) % word) (asked size page).2,
  (cap_limit-le 50 100 limit (omega arith) (omega arith)).0,
  (cap_limit-le 50 100 limit (omega arith) (omega arith)).1,
)

offset-kept : (k : ℕ) → k < 2 ^ 63 → (if negative (k % word) then 0 else k % word) ≡ k
offset-kept k h = ground arith

limit-kept :
    (size : ℕ)
    → 1 ≤ size
    → size < 2 ^ 63
    → cap_limit 200 (default_limit 50 size) ≡ (if ltb 200 size then 200 else size)
unfolding cap_limit default_limit
limit-kept size pos small = ground arith

next-kept :
    (page k total : ℕ)
    → k < 2 ^ 63
    → total < 2 ^ 63
    → page < 2 ^ 63
    → (if less (k % word) total then some ((page + 1) % word) else none)
      ≡ (if ltb k total then some (page + 1) else none)
next-kept page k total a b c = ground arith

times_suc : (size page : ℕ) → (page + 1) * size ≡ size + size * page
times_suc size page = omega arith

times_ge : (size page : ℕ) → 1 ≤ size → page ≤ size * page
times_ge zero page h = absurd (omega (arith, h))
times_ge (suc n) page h = omega arith

-- For a positive size and a page whose next page begins at a number below 2^63, and a total below that, the
-- page has the offset and the limit that the size asks for, but 200 rows at most, and there is a next
-- page exactly where the total goes beyond what the pages up to this one have asked for.
pub pages_in_order :
    (size page total : ℕ)
    → 1 ≤ size
    → size + size * page < 2 ^ 63
    → total < 2 ^ 63
    → ((create_pagination (some size) (some page) total).filter.offset ≡ size * page)
      × ((create_pagination (some size) (some page) total).filter.limit
          ≡ (if ltb 200 size then 200 else size))
      × ((create_pagination (some size) (some page) total).next_page
          ≡ (if ltb (size + size * page) total then some (page + 1) else none))
unfolding create_pagination new_offset_filter cap_limit default_limit
pages_in_order size page total pos fits small =
    let le = times_ge size page pos in
    (
      offset-kept (size * page) (omega (arith, fits)),
      limit-kept size pos (omega (arith, fits)),
      ap (λ p. if less ((p * size) % word) total then some ((page + 1) % word) else none)
            (omega (arith, le, fits))
          ∙ ap (λ k. if less (k % word) total then some ((page + 1) % word) else none)
              (times_suc size page)
          ∙ next-kept page (size + size * page) total fits small (omega (arith, le, fits)),
    )
