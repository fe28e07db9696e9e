-- ===== src/Api/Service/Deleted.antt =====
-- What a deletion removes, and of whom.
use allocation_key_simulatio.Base.{
  All, subst, false, Bool-cases, ◌==◌, ==_iff, keep, ℕ, ◌≡◌, ◌≢◌, ◌⊎◌, refl, sym, ap, ◌∙◌, inl, inr,
  Text, List, [], ◌∷◌, Option, none, some, arith,
}
use allocation_key_simulatio.Simulation.Number.{Arith}
use allocation_key_simulatio.Shared.Errors.{Error}
use allocation_key_simulatio.Shared.Models.{SimulationModel, SimulationKeyResultModel}
use allocation_key_simulatio.Worker.World.{World, simulation_deleted, find_row}
use allocation_key_simulatio.Worker.Action.{Exc}
use allocation_key_simulatio.Worker.Action.Ends.{
  Post, Ends, Ends-raise, Ends-after, Ends-as, Ends-bind, Ends-gets, Ends-modify,
}
use allocation_key_simulatio.Worker.Outside.{Outside}
use allocation_key_simulatio.Worker.Dispatcher.{delete_safely}
use allocation_key_simulatio.Worker.Persistence.Consistency.{results_of}
use allocation_key_simulatio.Api.Repository.{get_simulation_row, with_community_scope}
use allocation_key_simulatio.Api.Service.{Front, refuse, log_audit}
use allocation_key_simulatio.Api.Service.Stored.{
  filled, drop_row, drop_results, delete_row, delete_simulation,
}
use allocation_key_simulatio.Api.Service.Started.{
  Kept, kept, IsAt, IsCleaned, absent, lost, deleted, Fault, Ends-calls, Ends-delete_safely,
  Ends-log_audit,
}
use allocation_key_simulatio.Api.Service.Answered.{refusal}

module _ {N : Type 0} where
  -- The rows and results without a simulation's.
  abbrev pub without : ℕ → Kept N → Kept N
  without id k = record k { rows = drop_row id k.rows; results = drop_results id k.results }

module _ {a : Arith} (o : Outside a) where
  open a use {Num}

  -- Both objects are gone, but for a deletion that the store lost.
  pub record IsDeleted (id : ℕ) (row : SimulationModel) (k : Kept Num) (w : World Num)
      : Type 0 where
    pub middle : World Num
    pub source : IsCleaned o (without id k) middle row.file_storage_key
    pub result : IsCleaned o (kept middle) w (filled row.result_storage_key)

module _ {a : Arith} {o : Outside a} where
  open a use {Num}

  moved :
      {k : Kept Num} {w x : World Num} {key : Option Text}
      → kept x ≡ kept w
      → IsCleaned o k w key
      → IsCleaned o k x key
  moved e (absent p) = absent (e ∙ p)
  moved e (lost key t l p) = lost key t l (e ∙ p)
  moved e (deleted key p) = deleted key (e ∙ p)

  cleaned_rows :
      {k : Kept Num} {w : World Num} {key : Option Text}
      → IsCleaned o k w key
      → (w.rows ≡ k.rows) × (w.results ≡ k.results)
  cleaned_rows (absent p) = (ap (λ (x : Kept Num). x.rows) p, ap (λ (x : Kept Num). x.results) p)
  cleaned_rows (lost key t l p) =
      (ap (λ (x : Kept Num). x.rows) p, ap (λ (x : Kept Num). x.results) p)
  cleaned_rows (deleted key p) =
      (ap (λ (x : Kept Num). x.rows) p, ap (λ (x : Kept Num). x.results) p)

find_row-drop_row : (id : ℕ) (rows : List SimulationModel) → find_row id (drop_row id rows) ≡ none
unfolding drop_row find_row
find_row-drop_row id [] = refl
find_row-drop_row id (r ∷ rows) = let ih = find_row-drop_row id rows in grind (arith, ih)

find_row-drop_row_other :
    (n id : ℕ) (rows : List SimulationModel)
    → n ≢ id
    → find_row n (drop_row id rows) ≡ find_row n rows
unfolding drop_row find_row
find_row-drop_row_other n id [] d = refl
find_row-drop_row_other n id (r ∷ rows) d =
    let ih = find_row-drop_row_other n id rows d in grind (arith, ih)

results_of-drop_results :
    {N : Type 0} (id : ℕ) (trees : List (SimulationKeyResultModel N))
    → results_of id (drop_results id trees) ≡ 0
unfolding drop_results results_of
results_of-drop_results id [] = refl
results_of-drop_results id (t ∷ trees) =
    let ih = results_of-drop_results id trees in grind (arith, ih)

abbrev pub IsIn : SimulationModel → List SimulationModel → Type 0
IsIn row [] = ⊥
IsIn row (r ∷ rows) = (row ≡ r) ⊎ IsIn row rows

some_row : {x y : SimulationModel} → ◌≡◌ {A = Option SimulationModel} (some x) (some y) → x ≡ y
some_row h = cc

no_row : (x : SimulationModel) → ◌≡◌ {A = Option SimulationModel} (some x) none → ⊥
no_row x h = cc

same_community : (c d : ℕ) → ◌≡◌ {A = Option ℕ} (some c) (some d) → d ≡ c
same_community c d h = cc

other_community : (c d : ℕ) → (d == c) ≡ false → ¬ (◌≡◌ {A = Option ℕ} (some c) (some d))
other_community c d h e = let same = (==_iff d c).1 (same_community c d e) in cc

-- What the row that the repository finds is, and that there is none where it finds none.
get_simulation_row-some :
    (community : Option ℕ) (id : ℕ) (rows : List SimulationModel) (row : SimulationModel)
    → get_simulation_row community id rows ≡ some row
    → IsIn row rows × ((row.id ≡ id) × (community ≡ some row.id_community))
unfolding get_simulation_row with_community_scope find_row
get_simulation_row-some none id rows row h = cc
get_simulation_row-some (some c) id [] row h = cc
get_simulation_row-some (some c) id (r ∷ rows) row h = elim (Bool-cases (r.id_community == c)) [
  | inl q ↦
      let h' = rw (q, keep) at h in
      elim (Bool-cases (r.id == id)) [
        | inl t ↦
            let e = some_row (rw t at h') in
            (
              inl (sym e),
              subst (λ (x : SimulationModel). (x.id ≡ id) × (some c ≡ some x.id_community)) e
                  ((==_iff r.id id).0 t, ap some (sym ((==_iff r.id_community c).0 q))),
            )
        | inr f ↦
            let (member, wanted) = get_simulation_row-some (some c) id rows row (rw f at h') in
            (inr member, wanted)
      ]
  | inr q ↦
      let (member, wanted) = get_simulation_row-some (some c) id rows row (rw (q, keep) at h) in
      (inr member, wanted)
]

get_simulation_row-none :
    (community : Option ℕ) (id : ℕ) (rows : List SimulationModel)
    → get_simulation_row community id rows ≡ none
    → All (λ r. ¬ ((r.id ≡ id) × (community ≡ some r.id_community))) rows
unfolding get_simulation_row with_community_scope find_row
get_simulation_row-none none id [] h = tt
get_simulation_row-none none id (r ∷ rows) h =
    (λ w. let e = w.1 in cc, get_simulation_row-none none id rows h)
get_simulation_row-none (some c) id [] h = tt
get_simulation_row-none (some c) id (r ∷ rows) h = elim (Bool-cases (r.id_community == c)) [
  | inl q ↦
      let h' = rw (q, keep) at h in
      elim (Bool-cases (r.id == id)) [
        | inl t ↦ absurd (no_row r (rw t at h'))
        | inr f ↦ (
          λ w. let same = (==_iff r.id id).1 w.0 in cc,
          get_simulation_row-none (some c) id rows (rw f at h'),
        )
      ]
  | inr q ↦ (
    λ w. other_community c r.id_community q w.1,
    get_simulation_row-none (some c) id rows (rw (q, keep) at h),
  )
]

module _ (a : Arith) (o : Outside a) (front : Front) (community : Option ℕ) (id : ℕ)
    (k : Kept a.Num) where
  open a use {Num}

  -- A row of this id and of the request's community.
  abbrev pub IsWanted : SimulationModel → Type 0
  IsWanted r = (r.id ≡ id) × (community ≡ some r.id_community)

  -- A refusal or a failure leaves everything in place.
  abbrev pub IsUndeleted : Exc → World Num → Type 0
  IsUndeleted e w =
      ((Fault o.local_db e)
        ⊎ ((e ≡ refusal Error.simulation_not_found 404) × All (λ r. ¬ IsWanted r) k.rows))
      × IsAt k w

  abbrev pub Deleted : Unit {0} → World Num → Type 0
  Deleted u w = (row : SimulationModel) × IsIn row k.rows × IsWanted row × IsDeleted o id row k w

  Ends-second :
      {E : Exc → World Num → Type 0} (row : SimulationModel)
      → Ends
          (λ w. IsCleaned o (without id k) w row.file_storage_key)
          (λ u. IsDeleted o id row k)
          E
          (delete_safely a o (filled row.result_storage_key))
  Ends-second row = record {
    at = λ w p.
        (Ends-as (λ v x q. record { middle = w; source = p; result = q }) (λ e x q. q)
            (Ends-delete_safely a o front (kept w) (filled row.result_storage_key))).at
          w refl;
  }

  -- The audit entry is on another session.
  Ends-logged :
      (row : SimulationModel)
      → IsIn row k.rows
      → IsWanted row
      → Ends
          (IsDeleted o id row k)
          Deleted
          IsUndeleted
          (log_audit a o front simulation_deleted id row.id_community)
  Ends-logged row h h' = record {
    at = λ w p.
        (Ends-as
            (λ v x q. (
              row,
              h,
              h',
              record { middle = p.middle; source = p.source; result = moved q p.result },
            ))
            (λ e x q. q)
            (Ends-log_audit a o front (kept w) simulation_deleted id row.id_community)).at
          w refl;
  }

  Ends-delete_row :
      (row : Option SimulationModel)
      → get_simulation_row community id k.rows ≡ row
      → Ends (IsAt k) Deleted IsUndeleted (delete_row a o front community id row)
  unfolding delete_row refuse
  Ends-delete_row none h =
      Ends-raise _ (λ w p. (inr (refl, get_simulation_row-none community id k.rows h), p))
  Ends-delete_row (some row) h =
      Ends-bind {R = λ u. IsAt k} _ _
        (Ends-after (Ends-calls a o front k o.local_db) (λ e w p. (inl p.0, p.1)))
        (λ u.
          Ends-bind {R = λ u. IsAt k} _ _
            (Ends-after (Ends-calls a o front k o.local_db) (λ e w p. (inl p.0, p.1)))
            (λ v.
              Ends-bind {R = λ u. IsAt (without id k)} _ _
                (Ends-modify _ (λ w p. ap (without id) p))
                (λ x.
                  Ends-bind {R = λ u w. IsCleaned o (without id k) w row.file_storage_key} _ _
                    (Ends-delete_safely a o front (without id k) row.file_storage_key)
                    (λ y. Ends-bind {R = λ u. IsDeleted o id row k} _ _ (Ends-second row) (λ z.
                      let (member, wanted) = get_simulation_row-some community id k.rows row h in
                      Ends-logged row member wanted)))))

  Ends-delete_simulation :
      Ends (IsAt k) Deleted IsUndeleted (delete_simulation a o front community id)
  unfolding delete_simulation
  Ends-delete_simulation =
      Ends-bind {R = λ u. IsAt k} _ _
        (Ends-after (Ends-calls a o front k o.local_db) (λ e w p. (inl p.0, p.1)))
        (λ u. Ends-gets _ _ (λ row. record {
          at = λ w p.
              (Ends-delete_row row (
                  ap (λ (x : Kept Num). get_simulation_row community id x.rows) (sym p.0) ∙ p.1)).at
                w p.0;
        }))

-- A deletion that returns was of a row of the request's community; afterwards that row and its
-- results are gone, every other row reads as before, and the uploaded file and the time series that
-- the row named are deleted, or a deletion was lost. One that raises leaves rows, results, objects
-- and events as they were: the row is missing or another community's (a 404), or the local database
-- failed.
pub delete_simulation-IsAnswered :
    (a : Arith) (o : Outside a) (front : Front) (community : Option ℕ) (id : ℕ) (w : World a.Num)
    → Post
        (λ u x.
          Deleted a o front community id (kept w) u x
          × (find_row id x.rows ≡ none)
          × (results_of id x.results ≡ 0)
          × ((n : ℕ) → n ≢ id → find_row n x.rows ≡ find_row n w.rows))
        (IsUndeleted a o front community id (kept w))
        (delete_simulation a o front community id w).0
        (delete_simulation a o front community id w).1
delete_simulation-IsAnswered a o front community id w =
    (Ends-as (λ u x d. (d, (gone d).0, (gone d).1, (gone d).2)) (λ e x d. d)
        (Ends-delete_simulation a o front community id (kept w))).at
      w refl
  where
    gone :
        {u : Unit {0}} {x : World a.Num}
        → Deleted a o front community id (kept w) u x
        → (find_row id x.rows ≡ none)
          × (results_of id x.results ≡ 0)
          × ((n : ℕ) → n ≢ id → find_row n x.rows ≡ find_row n w.rows)
    gone (row, member, wanted, d) =
        let first = cleaned_rows d.source in
        let second = cleaned_rows d.result in
        let rows = second.0 ∙ first.0 in
        (
          ap (find_row id) rows ∙ find_row-drop_row id w.rows,
          ap (results_of id) (second.1 ∙ first.1) ∙ results_of-drop_results id w.results,
          λ n d. ap (find_row n) rows ∙ find_row-drop_row_other n id w.rows d,
        )
