-- ===== src/Collector/Sink/Tests.antt =====
-- Runs of the buffered sink, and its theorems at concrete inputs.
use toqar.Common.{ℕ, Bool, true, false, List, [], ◌∷◌, ◌++◌, ◌≡◌, refl, arith}
use toqar.Collector.Sink.{BufferedSink, acked, backpressure, publish, health, degraded}
use toqar.Collector.Sink.NoLoss.{IsHonest, serve_all, idle, served-IsHonest}
use toqar.Collector.Sink.Delivery.{served-delivered}
use toqar.Collector.Sink.Overlap.{
  System, arrived, both_failed, IsLost, overlap-IsLost, IsBounded, here, next, arrive,
  Reach-IsBounded,
}

abbrev empty : BufferedSink ℕ
empty = record { buffer = []; degraded = false; capacity = 3 }

abbrev half_full : BufferedSink ℕ
half_full = record { buffer = 1 ∷ 2 ∷ []; degraded = true; capacity = 3 }

publish_tests :
    (publish half_full (3 ∷ []) false
      ≡ (record { buffer = 1 ∷ 2 ∷ 3 ∷ []; degraded = true; capacity = 3 }, acked))
    × (publish half_full (3 ∷ 4 ∷ []) false ≡ (half_full, backpressure 2))
    × (publish half_full (3 ∷ 4 ∷ []) true ≡ (empty, acked))
    × ((health half_full).broker ≡ degraded)
unfolding publish health
publish_tests = (refl, refl, refl, refl)

abbrev outage : List (List ℕ × Bool)
outage = (1 ∷ 2 ∷ [], false) ∷ (3 ∷ 4 ∷ [], false) ∷ (5 ∷ [], true) ∷ []

served-IsHonest_example : IsHonest (serve_all (idle 3) outage)
served-IsHonest_example = served-IsHonest 3 outage

abbrev recovery : List (List ℕ × Bool)
recovery = (6 ∷ [], false) ∷ (7 ∷ [], true) ∷ []

served-delivered_example :
    (rest : List ℕ) × ((serve_all (serve_all (idle 3) outage) recovery).broker
      ≡ (serve_all (idle 3) outage).promised ++ rest)
served-delivered_example = served-delivered 3 outage recovery refl

abbrev quiet : System ℕ
quiet = record { sink = empty; waiting = []; broker = []; promised = [] }

Reach-IsBounded_example : IsBounded (arrived (arrived quiet (1 ∷ [])) (2 ∷ []))
Reach-IsBounded_example =
    Reach-IsBounded quiet (next (next here (arrive (1 ∷ []))) (arrive (2 ∷ [])))
      (record { fits = omega arith; held = tt {0} })

-- Three accepted messages, of which the first two are nowhere.
overlap-IsLost_example :
    IsLost quiet (both_failed quiet (1 ∷ 2 ∷ []) (3 ∷ [])) (1 ∷ 2 ∷ []) (3 ∷ [])
overlap-IsLost_example =
    overlap-IsLost quiet (1 ∷ 2 ∷ []) (3 ∷ []) refl (omega arith) (omega arith) (omega arith)
      (omega arith)
