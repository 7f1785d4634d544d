-- ===== src/LocalLife/Accounting/Pages.antt =====
-- The loops over the pages of funds and of bills, of the handler `sync` of
-- backend/poi_admin/local_life/accounting.py.
pub mod Complete
use poi_hub.Base.{
  ℕ, zero, suc, String, Bool, Option, none, some, List, [], ◌∷◌, ◌++◌, ◌==◌, if◌then◌else◌,
}
use poi_hub.Base.Result.{Result, ok, err, ◌>>=◌, ◌>>◌}
use poi_hub.Base.Rows.{any}
use poi_hub.Base.Text.{concat}
use poi_hub.Base.Json.{Json}
use poi_hub.Operations.Errors.{Failure}
use poi_hub.LocalLife.Products.Handlers.{raise}

-- a cursor that is there and not empty
abbrev pub next_cursor : Option String → Option String
next_cursor none = none
next_cursor (some c) = if c == "" then none else some c

-- `subject` is what the messages name. `list_page` is `list_funds`, or `list_bills` of a product and a date: the page of a cursor and the
-- cursor of the next one.
module _ (subject : String)
    (list_page : Option String → Result Failure (List Json × Option String)) where
  -- The first argument is what is left of `range(1000)`.
  unfoldable pub fetch_pages :
      ℕ → Option String → List String → List Json → Result Failure (List Json)
  unfolding concat
  fetch_pages zero cursor seen rows = raise (concat subject "分页超过安全上限") "upstream_pagination_limit"
  fetch_pages (suc n) cursor seen rows = elim (list_page cursor) [
    | err e ↦ err e
    | ok (page, following) ↦ elim (next_cursor following) [
      | none ↦ ok (rows ++ page)
      | some c ↦
          let rest = fetch_pages n (some c) (c ∷ seen) (rows ++ page) in
          if any (λ s. s == c) seen
          then raise (concat subject "分页游标重复") "invalid_upstream_pagination"
          else rest
    ]
  ]

  unfoldable pub fetch_all : Result Failure (List Json)
  unfolding fetch_pages
  fetch_all = fetch_pages 1000 none [] []
