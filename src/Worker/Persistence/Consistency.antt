-- ===== src/Worker/Persistence/Consistency.antt =====
-- Rows and results between two commits.
use allocation_key_simulatio.Base.{
  ℕ, suc, ◌≤◌, ◌≡◌, ◌≢◌, refl, sym, ◌∙◌, ap, subst, Text, List, [], ◌∷◌, length, length-take_le,
  none, some, true, false, ◌==◌, ==_iff, Bool-cases, inl, inr, if◌then◌else◌, arith,
}
use allocation_key_simulatio.Shared.Models.{
  SimulationModel, SimulationStatus, SimulationKeyResultModel, is_pending,
}
use allocation_key_simulatio.Worker.World.{find_row, update_row}
use allocation_key_simulatio.Worker.World.Rows.{find_row-update_row_other, find_row-update_row_same}
use allocation_key_simulatio.Worker.Persistence.{
  error_message_max_len, result_storage_key, set_success, set_failed,
}
use allocation_key_simulatio.Worker.Persistence.Transitions.{
  Saved, Transition, succeeds, fails, Reaches, stays, moves,
}

module _ {N : Type 0} where
  -- The result trees of a simulation.
  unfoldable pub results_of : ℕ → List (SimulationKeyResultModel N) → ℕ
  results_of n [] = 0
  results_of n (tree ∷ trees) =
      let rest = results_of n trees in if tree.id_simulation == n then suc rest else rest

-- A FAILED row has a message, as long as the column is at most.
abbrev pub HasMessage : SimulationModel → Type 0
HasMessage r = (m : Text) × ((r.error_message ≡ some m) × (length m ≤ error_message_max_len))

-- A row with the number of its result trees: one beside SUCCESS, none beside the others.
unfoldable pub IsSettled : SimulationStatus → ℕ → SimulationModel → ℕ → Type 0
IsSettled SimulationStatus.pending n r trees = trees ≡ 0
IsSettled SimulationStatus.success n r trees =
    (trees ≡ 1)
    × ((r.error_message ≡ none)
        × (r.result_storage_key ≡ some (result_storage_key r.id_community n)))
IsSettled SimulationStatus.failed n r trees = (trees ≡ 0) × HasMessage r

module _ {N : Type 0} where
  pub record IsConsistent (s : Saved N) : Type 0 where
    pub settled :
        (n : ℕ) (r : SimulationModel)
        → find_row n s.rows ≡ some r
        → IsSettled r.status n r (results_of n s.results)

pending-eq :
    (status : SimulationStatus) → is_pending status ≡ true → status ≡ SimulationStatus.pending
pending-eq SimulationStatus.pending e = refl
pending-eq SimulationStatus.success e = cc
pending-eq SimulationStatus.failed e = cc

some_injective : {x y : SimulationModel} → some x ≡ some y → x ≡ y
some_injective e = cc

-- A PENDING row has no result tree.
no_tree :
    (n : ℕ) (r : SimulationModel) (trees : ℕ)
    → is_pending r.status ≡ true
    → IsSettled r.status n r trees
    → trees ≡ 0
unfolding IsSettled
no_tree n r trees p h = subst (λ status. IsSettled status n r trees) (pending-eq r.status p) h

module _ {N : Type 0} where
  -- A commit settles its own row and leaves the others as they were.
  updated-IsConsistent :
      (s : Saved N) (id : ℕ) (f : SimulationModel → SimulationModel) (row : SimulationModel)
      (results : List (SimulationKeyResultModel N))
      → ((r : SimulationModel) → (f r).id ≡ r.id)
      → find_row id s.rows ≡ some row
      → IsSettled (f row).status id (f row) (results_of id results)
      → ((n : ℕ) → n ≢ id → results_of n results ≡ results_of n s.results)
      → IsConsistent s
      → IsConsistent {N = N} (record { rows = update_row id f s.rows; results = results })
  updated-IsConsistent s id f row results same e here there c = record {
    settled = λ n r found. elim (Bool-cases (n == id)) [
      | inl y ↦
          let n-id : n ≡ id = (==_iff n id).0 y in
          let r-row : f row ≡ r = some_injective (
            sym (find_row-update_row_same id f s.rows row same e)
            ∙ sym (ap (λ k. find_row k (update_row id f s.rows)) n-id)
            ∙ found) in
          subst (λ k. IsSettled r.status k r (results_of k results)) (sym n-id)
            (subst (λ q. IsSettled q.status id q (results_of id results)) r-row here)
      | inr y ↦
          let apart : n ≢ id = λ q. grind (arith, q, y) in
          subst (λ k. IsSettled r.status n r k) (sym (there n apart))
            (c.settled n r (sym (find_row-update_row_other n id f s.rows same apart) ∙ found))
    ];
  }

  success-IsSettled :
      (s : Saved N) (id : ℕ) (row : SimulationModel) (tree : SimulationKeyResultModel N)
      → find_row id s.rows ≡ some row
      → is_pending row.status ≡ true
      → tree.id_simulation ≡ id
      → IsConsistent s
      → IsSettled SimulationStatus.success id
          (set_success (result_storage_key row.id_community id) row)
          (results_of id (tree ∷ s.results))
  unfolding IsSettled results_of set_success
  success-IsSettled s id row tree e p i c =
      let none_yet = no_tree id row _ p (c.settled id row e) in
      (grind (arith, none_yet, i), (refl, refl))

  tree_elsewhere :
      (tree : SimulationKeyResultModel N) (trees : List (SimulationKeyResultModel N)) (n id : ℕ)
      → tree.id_simulation ≡ id
      → n ≢ id
      → results_of n (tree ∷ trees) ≡ results_of n trees
  unfolding results_of
  tree_elsewhere tree trees n id i d = grind (arith, i, d)

  failed-IsSettled :
      (s : Saved N) (id : ℕ) (row : SimulationModel) (m : Text)
      → find_row id s.rows ≡ some row
      → is_pending row.status ≡ true
      → IsConsistent s
      → IsSettled SimulationStatus.failed id (set_failed m row) (results_of id s.results)
  unfolding IsSettled set_failed
  failed-IsSettled s id row m e p c =
      (no_tree id row _ p (c.settled id row e), (_, (refl, length-take_le _ m)))

  Transition-IsConsistent : (s t : Saved N) → Transition s t → IsConsistent s → IsConsistent t
  unfolding set_success set_failed
  Transition-IsConsistent s t (succeeds id row tree e p i eq) c = subst IsConsistent (sym eq) (
      updated-IsConsistent s id _ row (tree ∷ s.results) (λ r. refl) e
        (success-IsSettled s id row tree e p i c) (λ n d. tree_elsewhere tree s.results n id i d) c)
  Transition-IsConsistent s t (fails id row m e p eq) c = subst IsConsistent (sym eq) (
      updated-IsConsistent s id (set_failed m) row s.results (λ r. refl) e
        (failed-IsSettled s id row m e p c) (λ n d. refl) c)

  pub Reaches-IsConsistent : (s t : Saved N) → Reaches s t → IsConsistent s → IsConsistent t
  Reaches-IsConsistent s t stays c = c
  Reaches-IsConsistent s t (moves {t = u} r step) c =
      Transition-IsConsistent u t step (Reaches-IsConsistent s u r c)

  -- A row that is not PENDING.
  Transition-final :
      (s t : Saved N) (n : ℕ) (r : SimulationModel)
      → Transition s t
      → is_pending r.status ≡ false
      → find_row n s.rows ≡ some r
      → find_row n t.rows ≡ some r
  unfolding set_success set_failed
  Transition-final s t n r (succeeds id row tree e p i eq) f found =
      ap (λ u. find_row n u.rows) eq
      ∙ find_row-update_row_other n id _ s.rows (λ q. refl) (λ q. grind (arith, q, e, p, f, found))
      ∙ found
  Transition-final s t n r (fails id row m e p eq) f found =
      ap (λ u. find_row n u.rows) eq
      ∙ find_row-update_row_other n id (set_failed m) s.rows (λ q. refl)
          (λ q. grind (arith, q, e, p, f, found))
      ∙ found

  pub Reaches-final :
      (s t : Saved N) (n : ℕ) (r : SimulationModel)
      → Reaches s t
      → is_pending r.status ≡ false
      → find_row n s.rows ≡ some r
      → find_row n t.rows ≡ some r
  Reaches-final s t n r stays f found = found
  Reaches-final s t n r (moves {t = u} m step) f found =
      Transition-final u t n r step f (Reaches-final s u n r m f found)
