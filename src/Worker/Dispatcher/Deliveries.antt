-- ===== src/Worker/Dispatcher/Deliveries.antt =====
-- The messages that a worker handles, one after the other.
use allocation_key_simulatio.Base.{ℕ, ◌≡◌, List, [], ◌∷◌, some, false}
use allocation_key_simulatio.Simulation.Number.{Arith}
use allocation_key_simulatio.Shared.Models.{SimulationModel, is_pending}
use allocation_key_simulatio.Worker.World.{World, find_row}
use allocation_key_simulatio.Worker.Outside.{Outside}
use allocation_key_simulatio.Worker.Persistence.Transitions.{saved, Reaches, stays}
use allocation_key_simulatio.Worker.Persistence.Consistency.{
  IsConsistent, Reaches-IsConsistent, Reaches-final,
}
use allocation_key_simulatio.Worker.Dispatcher.{Msg, handle_message}
use allocation_key_simulatio.Worker.Dispatcher.Handler.{Keeps-handle_message}

module _ (a : Arith) (o : Outside a) where
  open a use {Num}

  -- The worker outlives an exception of a handler (`_on_task_done` logs it).
  unfoldable pub serve : List Msg → World Num → World Num
  serve [] w = w
  serve (msg ∷ msgs) w = serve msgs (handle_message a o msg w).1

  -- Whatever one message brings, the rows and results move only by commits of a PENDING row.
  pub handle_message-Reaches :
      (msg : Msg) (w : World Num) → Reaches (saved w) (saved (handle_message a o msg w).1)
  handle_message-Reaches msg w = (Keeps-handle_message a o (saved w) msg).at w stays

  -- From consistent rows and results, a worker that handles any messages, one after the other,
  -- with any faults of what it calls, leaves consistent ones: a SUCCESS row has exactly one result
  -- tree, no error message and the key of its stored series; a FAILED row has none and a message of
  -- at most 2,000 characters; a PENDING row has none.
  pub serve-IsConsistent :
      (msgs : List Msg) (w : World Num)
      → IsConsistent (saved w)
      → IsConsistent (saved (serve msgs w))
  unfolding serve
  serve-IsConsistent [] w c = c
  serve-IsConsistent (msg ∷ msgs) w c =
      serve-IsConsistent msgs (handle_message a o msg w).1
        (Reaches-IsConsistent (saved w) _ (handle_message-Reaches msg w) c)

  -- A row that is SUCCESS or FAILED is left as it is by any messages that a worker handles, with
  -- any faults: a late redelivery neither runs into the result nor changes the verdict.
  pub serve-final :
      (msgs : List Msg) (w : World Num) (n : ℕ) (r : SimulationModel)
      → is_pending r.status ≡ false
      → find_row n w.rows ≡ some r
      → find_row n (serve msgs w).rows ≡ some r
  unfolding serve
  serve-final [] w n r f found = found
  serve-final (msg ∷ msgs) w n r f found =
      serve-final msgs (handle_message a o msg w).1 n r f
        (Reaches-final (saved w) _ n r (handle_message-Reaches msg w) f found)
