-- ===== src/Worker/World/Entries.antt =====
-- Which objects a write and a deletion leave in the store.
use allocation_key_simulatio.Base.{
  ◌≡◌, ◌≢◌, Text, List, [], ◌∷◌, is_some, true, same_text_eq, arith,
}
use allocation_key_simulatio.Shared.Loading.{Bytes}
use allocation_key_simulatio.Worker.World.{find_entry, put_entry, drop_entry}

-- There is an object of that key.
abbrev pub IsStored : Text → List (Text × Bytes) → Type 0
IsStored k es = is_some (find_entry k es) ≡ true

pub put_entry-IsStored :
    (j k : Text) (v : Bytes) (es : List (Text × Bytes))
    → IsStored k es
    → IsStored k (put_entry j v es)
unfolding put_entry find_entry
put_entry-IsStored j k v [] h = cc
put_entry-IsStored j k v ((i, x) ∷ es) h =
    let ih = put_entry-IsStored j k v es in grind (arith, ih, same_text_eq)

pub drop_entry-IsStored :
    (j k : Text) (es : List (Text × Bytes)) → k ≢ j → IsStored k es → IsStored k (drop_entry j es)
unfolding drop_entry find_entry
drop_entry-IsStored j k [] d h = h
drop_entry-IsStored j k ((i, x) ∷ es) d h =
    let ih = drop_entry-IsStored j k es d in grind (arith, ih, same_text_eq)
