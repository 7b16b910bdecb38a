-- ===== src/Pagination/Tests.antt =====
-- Pages of a small table, and entitlement tokens of first pages.
use jimm.Prelude.{◌≡◌, refl, ◌+◌, ◌*◌, ◌≤◌, none, some, string_eq, ltb, arith, if◌then◌else◌}
use jimm.Errors.{ok}
use jimm.Ofga.Names.{controller_kind}
use jimm.Pagination.{create_pagination, create_pagination_without_total, new_openfga_filter}
use jimm.Pagination.Pages.{Bounded, pagination-Bounded, pages_in_order}
use jimm.Pagination.FirstPages.{first_pages, first_pages_laws}
use jimm.Pagination.Entitlement.{
  marshal_token, next_after, entitlement_resources, decode_entitlement_token,
  next_entitlement_token,
}
use jimm.Pagination.Order.{NextPage, entitlement_pages}

pagination-Bounded_example :
    Bounded (create_pagination (some 500) (some 3) 1000).filter
    × Bounded (create_pagination_without_total (some 500) (some 3)).2
    × (1 ≤ (new_openfga_filter 0 "t").limit)
    × ((new_openfga_filter 0 "t").limit ≤ 100)
pagination-Bounded_example = pagination-Bounded (some 500) (some 3) 1000 0 "t"

pages_in_order_example :
    ((create_pagination (some 100) (some 1) 1000).filter.offset ≡ 100 * 1)
    × ((create_pagination (some 100) (some 1) 1000).filter.limit
        ≡ (if ltb 200 100 then 200 else 100))
    × ((create_pagination (some 100) (some 1) 1000).next_page
        ≡ (if ltb (100 + 100 * 1) 1000 then some (1 + 1) else none))
pages_in_order_example = pages_in_order 100 1 1000 (omega arith) (omega arith) (omega arith)

-- A request with no size has a next page whatever the total is.
unsized_next : (create_pagination none none 0).next_page ≡ some 1
unfolding create_pagination
unsized_next = refl

entitlement_pages_example :
    (decode_entitlement_token first_pages "" ≡ ok ("", "controller"))
    × NextPage first_pages controller_kind ""
        (next_entitlement_token first_pages controller_kind "")
entitlement_pages_example = entitlement_pages first_pages first_pages_laws controller_kind ""

-- After the controllers the clouds are read.
next_kind : next_entitlement_token first_pages controller_kind "" ≡ ok "cloud"
unfolding next_entitlement_token next_after entitlement_resources marshal_token
next_kind = refl
