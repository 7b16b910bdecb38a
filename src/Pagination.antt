-- ===== src/Pagination.antt =====
-- internal/common/pagination/pagination.go: limits and offsets of a page. An int is a 64-bit word in
-- two's complement.
pub mod Entitlement
pub mod FirstPages
pub mod Order
pub mod Pages
mod Tests
use jimm.Prelude.{
  ℕ, ◌+◌, ◌-◌, ◌*◌, ◌%◌, ◌^◌, Bool, true, false, ◌||◌, Option, none, some, ◌==◌, nat_eq, ltb, leb,
  String, if◌then◌else◌,
}

abbrev pub word : ℕ
word = 2 ^ 64

abbrev pub sign : ℕ
sign = 2 ^ 63

-- the int -1
abbrev pub minus_one : ℕ
minus_one = 2 ^ 64 - 1

-- signed order
abbrev pub less : ℕ → ℕ → Bool
less a b = ltb ((a + sign) % word) ((b + sign) % word)

abbrev pub negative : ℕ → Bool
negative a = leb sign a

abbrev pub default_offset_filter_page_size : ℕ
default_offset_filter_page_size = 50

abbrev pub max_offset_filter_page_size : ℕ
max_offset_filter_page_size = 200

abbrev pub default_openfga_page_size : ℕ
default_openfga_page_size = 50

abbrev pub max_openfga_page_size : ℕ
max_openfga_page_size = 100

pub record LimitOffsetPagination : Type 0 where
  pub limit : ℕ
  pub offset : ℕ

pub record OpenFgaPagination : Type 0 where
  pub limit : ℕ
  pub token : String

unfoldable pub default_limit : ℕ → ℕ → ℕ
default_limit default limit = if limit == 0 || negative limit then default else limit

unfoldable pub cap_limit : ℕ → ℕ → ℕ
cap_limit maximum limit = if ltb maximum limit then maximum else limit

unfoldable pub new_offset_filter : ℕ → ℕ → LimitOffsetPagination
unfolding default_limit cap_limit
new_offset_filter limit offset = record {
  limit =
      cap_limit max_offset_filter_page_size (default_limit default_offset_filter_page_size limit);
  offset = if negative offset then 0 else offset;
}

unfoldable pub new_openfga_filter : ℕ → String → OpenFgaPagination
unfolding default_limit cap_limit
new_openfga_filter limit token = record {
  limit = cap_limit max_openfga_page_size (default_limit default_openfga_page_size limit);
  token = token;
}

-- the page size, the page and the offset, where both pointers are set
abbrev pub asked : Option ℕ → Option ℕ → ℕ × ℕ × ℕ
asked (some size) (some page) = (size, page, (size * page) % word)
asked (some size) none = (minus_one, 0, 0)
asked none page = (minus_one, 0, 0)

pub record Page : Type 0 where
  pub current_page : ℕ
  pub next_page : Option ℕ
  pub filter : LimitOffsetPagination

unfoldable pub create_pagination : Option ℕ → Option ℕ → ℕ → Page
unfolding new_offset_filter
create_pagination size page total =
    let (page_size, current, offset) = asked size page in
    record {
      current_page = current;
      next_page =
          if less ((((current + 1) % word) * page_size) % word) total
          then some ((current + 1) % word)
          else none;
      filter = new_offset_filter page_size offset;
    }

-- the current page, the size that is expected, and the filter
unfoldable pub create_pagination_without_total : Option ℕ → Option ℕ → ℕ × ℕ × LimitOffsetPagination
unfolding new_offset_filter
create_pagination_without_total size page =
    let (page_size, current, offset) = asked size page in
    (current, (page_size + 1) % word, new_offset_filter ((page_size + 1) % word) offset)
