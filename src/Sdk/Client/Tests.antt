-- ===== src/Sdk/Client/Tests.antt =====
-- Runs of the client: the collector fails twice, then accepts.
use toqar.Common.{
  ℕ, ◌+◌, ◌*◌, ◌≡◌, ◌≤◌, refl, true, false, List, [], ◌∷◌, ltb, if◌then◌else◌, length, arith,
}
use toqar.Json.{Value, num}
use toqar.Sdk.Client.{
  Options, Host, Answer, ok_response, error_response, network_error, Client, created, Use, emit,
  flush_up_to, shut_down, use_all, use_client, enqueue, enqueue_all, flush, flush_round, deliver,
  deliver_from, shutdown, buffer_full, responded, delivery_error, batch_dropped,
}
use toqar.Sdk.Client.Accounting.{IsConserved}
use toqar.Sdk.Client.Conservation.{use_all-IsConserved}
use toqar.Sdk.Client.Draining.{flush-queue}

abbrev options : Options
options = record {
  disabled = false;
  dev_validate = false;
  max_batch = 2;
  max_buffered = 3;
  max_retries = 1;
}

abbrev answers : ℕ → Answer
answers n =
    if ltb n 1 then error_response 503 else if ltb n 2 then network_error else ok_response []

abbrev quiet : ℕ → List Value
quiet n = []

abbrev host : Host
host = record { is_valid = λ v. true; answer = answers; meanwhile = quiet }

abbrev uses : List Use
uses =
    emit (num 1)
    ∷ emit (num 2)
    ∷ emit (num 3)
    ∷ emit (num 4)
    ∷ flush_up_to 5
    ∷ emit (num 5)
    ∷ shut_down 5
    ∷ []

run_test : use_all options host uses created ≡ record {
  queue = [];
  timer = false;
  warnings = buffer_full ∷ responded 503 1 ∷ delivery_error 2 ∷ batch_dropped 2 2 ∷ [];
  posts = 4;
  accepted = num 1 ∷ num 2 ∷ num 3 ∷ num 4 ∷ num 5 ∷ [];
  delivered = num 4 ∷ num 5 ∷ [];
  dropped = num 1 ∷ num 2 ∷ num 3 ∷ [];
}
unfolding use_all use_client enqueue enqueue_all flush flush_round deliver deliver_from shutdown
run_test = refl

use_all-IsConserved_example : IsConserved options [] (use_all options host uses created)
use_all-IsConserved_example = use_all-IsConserved options host uses

abbrev waiting : Client
waiting = record created { queue = num 1 ∷ num 2 ∷ num 3 ∷ [] }

flush-queue_example :
    ((flush options host (length waiting.queue) waiting).queue ≡ [])
    × ((flush options host (length waiting.queue) waiting).posts ≤ 0 + 3 * (1 + 1))
flush-queue_example = flush-queue options host waiting (λ n. refl) (omega arith)
