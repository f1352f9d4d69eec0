-- ===== src/Reset/Order/Tests.antt =====
-- A reset of services/rag-service/src/rag/tools/reset_index.py with scripted ports.
use rag_poc.Prelude.{true, [], ok}
use rag_poc.Reset.{Ports, run}
use rag_poc.Reset.Order.{IsOrdered, run-IsOrdered}

abbrev filled : Ports
filled = record {
  World = Unit {0};
  collection_exists = λ w. (ok true, w);
  count_points = λ w. (ok 4, w);
  clear_points = λ w. (ok tt, w);
  count_rows = λ w. (ok 1, w);
  clear_rows = λ w. (ok tt, w);
}

run-IsOrdered_example :
    IsOrdered filled true (ok true) (run filled true (record { world = tt; log = [] }))
run-IsOrdered_example = run-IsOrdered filled true tt
