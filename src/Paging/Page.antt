-- ===== src/Paging/Page.antt =====
-- The answer of a listing service: one page of a list, and its `pagination`. Rows are listed newest
-- first (orderBy: { createdAt: "desc" }), and a table holds them in the order of their creation.
use qpass_backend.Prelude.{
  ℕ, zero, suc, ◌+◌, ◌-◌, ◌*◌, ◌/◌, Option, none, some, List, [], ◌∷◌, ◌++◌, if◌then◌else◌, leb,
  take, drop,
}
use qpass_backend.Db.{ℤ, pos, negsuc}

-- Math.max(1, Number(value) || fallback), of a fallback that is at least 1; `none` is a value that is
-- absent or not a number.
abbrev pub at_least_one : ℕ → Option ℤ → ℕ
at_least_one fallback none = fallback
at_least_one fallback (some (pos zero)) = fallback
at_least_one fallback (some (pos (suc n))) = suc n
at_least_one fallback (some (negsuc n)) = 1

-- Math.min
abbrev pub min : ℕ → ℕ → ℕ
min m n = if leb m n then m else n

-- MAX_PAGE_SIZE, MAX_ATTENDEE_PAGE_SIZE and constants.PAGINATION.MAX_LIMIT
abbrev pub max_page_size : ℕ
max_page_size = 100

abbrev pub page_size : Option ℤ → ℕ
page_size limit = min max_page_size (at_least_one 20 limit)

abbrev pub page_number : Option ℤ → ℕ
page_number page = at_least_one 1 page

-- page ?? DEFAULT_PAGE and limit ?? DEFAULT_LIMIT, of numbers that a schema has checked
abbrev pub given_or : ℕ → Option ℕ → ℕ
given_or fallback none = fallback
given_or fallback (some n) = n

-- Math.min(limit ?? DEFAULT_LIMIT, MAX_LIMIT)
abbrev pub checked_size : Option ℕ → ℕ
checked_size limit = min (given_or 20 limit) max_page_size

-- Math.ceil(total / take)
abbrev pub ceil_div : ℕ → ℕ → ℕ
ceil_div total n = (total + (n - 1)) / n

pub record Listing (A : Type 0) : Type 0 where
  pub items : List A
  pub page : ℕ
  pub limit : ℕ
  pub total : ℕ
  pub total_pages : ℕ

module _ {A : Type 0} where
  unfoldable pub newest_first : List A → List A
  newest_first [] = []
  newest_first (x ∷ xs) = newest_first xs ++ x ∷ []

  -- `skip` and `take` of a query over `xs`, of which `total` were counted
  unfoldable pub listed : ℕ → ℕ → ℕ → List A → Listing A
  listed page n total xs = record {
    items = take n (drop ((page - 1) * n) xs);
    page = page;
    limit = n;
    total = total;
    total_pages = ceil_div total n;
  }
