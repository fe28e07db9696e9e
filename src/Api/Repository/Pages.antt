-- ===== src/Api/Repository/Pages.antt =====
-- The pages of a list together, and the community that they are of.
use allocation_key_simulatio.Base.{
  ℕ, zero, suc, ◌*◌, ◌≤◌, ◌≡◌, refl, sym, ap, subst, ◌∙◌, Text, codes, All-take, All-drop, All-keep,
  All-elim, List, [], ◌∷◌, ◌++◌, Option, none, some, ==_iff, length, All, take, drop, take-add,
  take_of_length-le, length-take_le, ceil_div, ceil_div-mul, Result, ok, raised, >>=-eq-ok,
  ok-injective,
}
use allocation_key_simulatio.Simulation.Number.Integers.{ℤ, pos, negsuc}
use native.Mathlib.Nat.{suc-mul, zero-mul}
use allocation_key_simulatio.Shared.Models.{SimulationModel}
use allocation_key_simulatio.Api.Repository.{
  QueryParam, Clause, Sql, ListError, with_community_scope, get_param, filter_name, filter_status,
  filter_code, selected, page_of, get_list_simulations,
}

-- The rows of a page, none where the request fails.
abbrev rows_of : Result ListError (List SimulationModel × ℕ) → List SimulationModel
rows_of (ok (rows, total)) = rows
rows_of (raised e) = []

module _ (sql : Sql) (community : Option ℕ) (params : QueryParam) (rows : List SimulationModel)
    (page_size : ℕ) where
  -- Pages 1 to `n`, one behind the other.
  unfoldable pub first_pages : ℕ → List SimulationModel
  first_pages zero = []
  first_pages (suc n) =
      first_pages n ++ rows_of (get_list_simulations sql community params rows (suc n) page_size)

  first_pages-take :
      (matching : List SimulationModel)
      → selected sql community params rows ≡ ok matching
      → (n : ℕ) → first_pages n ≡ take (n * page_size) matching
  unfolding first_pages get_list_simulations page_of
  first_pages-take matching e zero = sym (ap (λ (k : ℕ). take k matching) (zero-mul page_size))
  first_pages-take matching e (suc n) =
      rw (e, first_pages-take matching e n)
        (sym (
          ap (λ (k : ℕ). take k matching) (suc-mul n page_size)
          ∙ take-add (n * page_size) page_size matching))

-- Where the parameters are accepted, a page holds at least one row, and the database orders the
-- rows in the same way for every page, pages 1 to `total_pages` together are every matching row, in
-- order and once; each page has at most `page_size` rows and reports the number of all of them.
pub first_pages-total :
    (sql : Sql) (community : Option ℕ) (params : QueryParam) (rows matching : List SimulationModel)
    (page_size : ℕ)
    → 1 ≤ page_size
    → selected sql community params rows ≡ ok matching
    → (first_pages sql community params rows page_size (ceil_div (length matching) page_size)
        ≡ matching)
      × ((page : ℕ)
          → (shown : List SimulationModel) × (get_list_simulations sql community params rows
                (suc page)
                page_size
              ≡ ok (shown, length matching))
            × (length shown ≤ page_size))
unfolding get_list_simulations page_of
first_pages-total sql community params rows matching page_size h e = (
  first_pages-take sql community params rows page_size matching e _
      ∙ take_of_length-le _ matching (ceil_div-mul (length matching) page_size h),
  λ page.
      (take page_size (drop (page * page_size) matching), rw e refl, length-take_le page_size _),
)

module _ (community : Option ℕ) where
  abbrev pub IsOwn : SimulationModel → Type 0
  IsOwn r = community ≡ some r.id_community

scoped-IsOwn :
    (community : Option ℕ) (rows : List SimulationModel)
    → All (IsOwn community) (with_community_scope community rows)
unfolding with_community_scope
scoped-IsOwn none rows = tt
scoped-IsOwn (some community) [] = tt
scoped-IsOwn (some community) (r ∷ rows) =
    All-elim (IsOwn (some community)) _ r _
      (λ q. ap some (sym ((==_iff r.id_community community).0 q)))
      (scoped-IsOwn (some community) rows)

name-IsOwn :
    (sql : Sql) (community : Option ℕ) (text : Option Text) (rows : List SimulationModel)
    → All (IsOwn community) rows
    → All (IsOwn community) (filter_name sql text rows)
unfolding filter_name
name-IsOwn sql community none rows h = h
name-IsOwn sql community (some text) rows h = All-keep _ _ rows h

code-IsOwn :
    (sql : Sql) (community : Option ℕ) (code : Option ℤ) (rows filtered : List SimulationModel)
    → All (IsOwn community) rows
    → filter_code sql code rows ≡ ok filtered
    → All (IsOwn community) filtered
unfolding filter_code
code-IsOwn sql community none rows filtered h e = cc
code-IsOwn sql community (some (negsuc code)) rows filtered h e =
    subst (All (IsOwn community)) (ok-injective e) tt
code-IsOwn sql community (some (pos code)) rows filtered h e =
    subst (All (IsOwn community)) (ok-injective e) (All-keep _ _ rows h)

status-IsOwn :
    (sql : Sql) (community : Option ℕ) (text : Option Text) (rows filtered : List SimulationModel)
    → All (IsOwn community) rows
    → filter_status sql text rows ≡ ok filtered
    → All (IsOwn community) filtered
unfolding filter_status
status-IsOwn sql community none rows filtered h e = subst (All (IsOwn community)) (ok-injective e) h
status-IsOwn sql community (some text) rows filtered h e =
    code-IsOwn sql community _ rows filtered h e

selected-IsOwn :
    (sql : Sql) (community : Option ℕ) (params : QueryParam) (rows matching : List SimulationModel)
    → ((clauses : List Clause) (xs : List SimulationModel)
        → All (IsOwn community) xs
        → All (IsOwn community) (sql.order_by clauses xs))
    → selected sql community params rows ≡ ok matching
    → All (IsOwn community) matching
unfolding selected
selected-IsOwn sql community params rows matching h e =
    let named =
      filter_name sql (get_param (codes "name") params) (with_community_scope community rows) in
    let (filtered, f, g) =
      >>=-eq-ok (filter_status sql (get_param (codes "status") params) named) _ e in
    subst (All (IsOwn community)) (ok-injective g) (
      h _ filtered (
        status-IsOwn sql community _ named filtered
          (name-IsOwn sql community _ _ (scoped-IsOwn community rows)) f))

page-IsOwn :
    (sql : Sql) (community : Option ℕ) (matching shown : List SimulationModel) (page page_size : ℕ)
    → All (IsOwn community) matching
    → page_of sql matching page page_size ≡ ok shown
    → All (IsOwn community) shown
unfolding page_of
page-IsOwn sql community matching shown zero zero h e =
    subst (All (IsOwn community)) (ok-injective e) tt
page-IsOwn sql community matching shown zero (suc size) h e = cc
page-IsOwn sql community matching shown (suc page) page_size h e =
    subst (All (IsOwn community)) (ok-injective e)
      (All-take _ page_size _ (All-drop _ (page * page_size) matching h))

-- Whatever the parameters, every row of a page belongs to the community in the request's context;
-- without one no row is shown. `ORDER BY` is only asked to keep what holds of all rows.
pub get_list_simulations-IsOwn :
    (sql : Sql) (community : Option ℕ) (params : QueryParam) (rows : List SimulationModel)
    (page page_size : ℕ) (shown : List SimulationModel) (total : ℕ)
    → ((clauses : List Clause) (xs : List SimulationModel)
        → All (IsOwn community) xs
        → All (IsOwn community) (sql.order_by clauses xs))
    → get_list_simulations sql community params rows page page_size ≡ ok (shown, total)
    → All (IsOwn community) shown
unfolding get_list_simulations
get_list_simulations-IsOwn sql community params rows page page_size shown total h e =
    let (matching, m, f) = >>=-eq-ok (selected sql community params rows) _ e in
    let (rows_shown, p, g) = >>=-eq-ok (page_of sql matching page page_size) _ f in
    subst (All (IsOwn community)) (ap (λ (x : List SimulationModel × ℕ). x.0) (ok-injective g)) (
      page-IsOwn sql community matching rows_shown page page_size
        (selected-IsOwn sql community params rows matching h m) p)
