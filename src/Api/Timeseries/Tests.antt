-- ===== src/Api/Timeseries/Tests.antt =====
-- A chart of at most two values of a series of three, and a document that storage cuts in two.
use allocation_key_simulatio.Base.{
  ℕ, ◌*◌, ◌≤◌, ◌≡◌, refl, codes, List, [], ◌∷◌, length, join, none, some, true, arith,
}
use allocation_key_simulatio.Shared.Loading.{Bytes}
use allocation_key_simulatio.Api.Timeseries.Sampling.{
  Decoder, series, stride_for, sample, read_iterations,
}
use allocation_key_simulatio.Api.Timeseries.Sampling.Chart.{nth, finite_value, sample-length}
use allocation_key_simulatio.Api.Timeseries.Sampling.Chunks.{read_iterations-chunks}

abbrev decoder : Decoder ℕ
decoder = record {
  loads = λ token. some (codes "surplus");
  raw_decode = λ text. some (series (1 ∷ 2 ∷ 3 ∷ []));
  isfinite = λ x. true;
}

sample-length_example :
    (length (sample decoder 2 (stride_for decoder 2 none 3) (1 ∷ 2 ∷ 3 ∷ [])) ≤ 2)
    × ((i : ℕ)
        → nth i (sample decoder 2 (stride_for decoder 2 none 3) (1 ∷ 2 ∷ 3 ∷ []))
          ≡ finite_value decoder 2 (nth (i * stride_for decoder 2 none 3) (1 ∷ 2 ∷ 3 ∷ [])))
sample-length_example = sample-length decoder 2 3 (1 ∷ 2 ∷ 3 ∷ []) (omega arith) (omega arith)

abbrev halves : List Bytes
halves = codes "{\"iterations\": [{\"sur" ∷ codes "plus\": [1, 2, 3]}]}" ∷ []

read_iterations-chunks_example :
    read_iterations decoder 2 halves ≡ read_iterations decoder 2 (join halves ∷ [])
read_iterations-chunks_example = read_iterations-chunks decoder 2 halves (join halves ∷ []) refl
