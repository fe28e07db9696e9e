-- ===== src/Worker/World/Rows.antt =====
-- Reading a row behind an update of one.
use allocation_key_simulatio.Base.{ℕ, ◌≡◌, ◌≢◌, refl, List, [], ◌∷◌, some, arith}
use allocation_key_simulatio.Shared.Models.{SimulationModel}
use allocation_key_simulatio.Worker.World.{find_row, update_row}

pub find_row-update_row_other :
    (n m : ℕ) (f : SimulationModel → SimulationModel) (rows : List SimulationModel)
    → ((r : SimulationModel) → (f r).id ≡ r.id)
    → n ≢ m
    → find_row n (update_row m f rows) ≡ find_row n rows
unfolding find_row update_row
find_row-update_row_other n m f [] same d = refl
find_row-update_row_other n m f (r ∷ rows) same d =
    let ih = find_row-update_row_other n m f rows same d in grind (arith, ih, same r)

pub find_row-update_row_same :
    (n : ℕ) (f : SimulationModel → SimulationModel) (rows : List SimulationModel)
    (r : SimulationModel)
    → ((r : SimulationModel) → (f r).id ≡ r.id)
    → find_row n rows ≡ some r
    → find_row n (update_row n f rows) ≡ some (f r)
unfolding find_row update_row
find_row-update_row_same n f [] r same e = cc
find_row-update_row_same n f (q ∷ rows) r same e =
    let ih = find_row-update_row_same n f rows r same in grind (arith, ih, same q)

pub id_of_found :
    (n : ℕ) (rows : List SimulationModel) (r : SimulationModel)
    → find_row n rows ≡ some r
    → r.id ≡ n
unfolding find_row
id_of_found n [] r e = cc
id_of_found n (q ∷ rows) r e = let ih = id_of_found n rows r in grind (arith, ih)
