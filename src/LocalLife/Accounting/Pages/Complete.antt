-- ===== src/LocalLife/Accounting/Pages/Complete.antt =====
-- What the loop over pages of backend/poi_admin/local_life/accounting.py collects.
use poi_hub.Base.{
  ℕ, zero, suc, String, ◌<◌, ◌≡◌, refl, ap, ◌∙◌, false, Option, none, some, List, [], ◌∷◌, ◌++◌,
  ◌==◌, arith,
}
use poi_hub.Base.Result.{Result, ok}
use poi_hub.Base.Rows.{All, any, length}
use poi_hub.Base.Rows.Laws.{Distinct}
use poi_hub.Base.Json.{Json}
use poi_hub.Operations.Errors.{Failure}
use poi_hub.LocalLife.Accounting.Pages.{next_cursor, fetch_pages, fetch_all}

append_assoc : (a b c : List Json) → (a ++ b) ++ c ≡ a ++ (b ++ c)
append_assoc [] b c = refl
append_assoc (x ∷ a) b c = ap (λ t. x ∷ t) (append_assoc a b c)

abbrev IsNew : List String → String → Type 0
IsNew seen c = any (λ s. s == c) seen ≡ false

IsNew-more :
    (c : String) (seen cs : List String)
    → any (λ x. c == x) cs ≡ false
    → All (IsNew seen) cs
    → All (IsNew (c ∷ seen)) cs
IsNew-more c seen [] d h = tt
IsNew-more c seen (x ∷ cs) d h = (ground arith, IsNew-more c seen cs (ground arith) h.1)

IsNew-all : (cs : List String) → All (IsNew []) cs
IsNew-all [] = tt
IsNew-all (c ∷ cs) = (refl, IsNew-all cs)

module _ (subject : String)
    (list_page : Option String → Result Failure (List Json × Option String)) where
  -- From a cursor on, the gateway serves these rows over pages with these further cursors.
  pub data Serves : Option String → List String → List Json → Type 0 where
    last :
        (cursor : Option String) (page : List Json) (following : Option String)
        → list_page cursor ≡ ok (page, following)
        → next_cursor following ≡ none
        → Serves cursor [] page
    more :
        (cursor : Option String) (page : List Json) (c : String) (cs : List String)
        (rows : List Json)
        → list_page cursor ≡ ok (page, some c)
        → c == "" ≡ false
        → Serves (some c) cs rows
        → Serves cursor (c ∷ cs) (page ++ rows)

  fetch_pages-Serves :
      (n : ℕ) (cursor : Option String) (cs : List String) (rows seen_rows : List Json)
      (seen : List String)
      → Serves cursor cs rows
      → Distinct (λ (a b : String). a == b) cs
      → All (IsNew seen) cs
      → length cs < n
      → fetch_pages subject list_page n cursor seen seen_rows ≡ ok (seen_rows ++ rows)
  unfolding fetch_pages
  fetch_pages-Serves zero _ _ _ seen_rows seen s d h e = absurd (omega (arith, e))
  fetch_pages-Serves (suc n) _ _ _ seen_rows seen (last cursor page following answer ends) d h e =
      rw (answer, fetch_pages) (rw ends refl)
  fetch_pages-Serves (suc n) _ _ _ seen_rows seen (more cursor page c cs rows answer named s) d h
        e =
      rw (answer, fetch_pages)
        (rw (named, h.0)
          (fetch_pages-Serves n (some c) cs rows (seen_rows ++ page) (c ∷ seen) s d.1
              (IsNew-more c seen cs d.0 h.1) (omega (arith, e))
            ∙ ap ok (append_assoc seen_rows page rows)))

  -- A gateway that serves its rows over at most a thousand pages, with cursors that are not empty and
  -- do not repeat, has all of them fetched, in their order.
  pub fetch_all-Serves :
      (cs : List String) (rows : List Json)
      → Serves none cs rows
      → Distinct (λ (a b : String). a == b) cs
      → length cs < 1000
      → fetch_all subject list_page ≡ ok rows
  unfolding fetch_all
  fetch_all-Serves cs rows s d e = fetch_pages-Serves 1000 none cs rows [] [] s d (IsNew-all cs) e
