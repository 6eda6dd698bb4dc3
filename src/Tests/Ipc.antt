-- ===== src/Tests/Ipc.antt =====
-- The theorems on the IPC server, at the requests of a client.
use phm.Base.{false, ◌≡◌, ◌≢◌, ◌⊎◌, refl, arith, codes, some, none, failed, self_deadlock}
use phm.Base.Search.{in_set, erase_leading, erase_trailing}
use phm.Engine.{create}
use phm.Engine.Free.{Frees}
use phm.Ipc.{dispatch, route}
use phm.Ipc.Requests.{IsBlank, IsPlainId, request}
use phm.Ipc.Answers.{named_method, dispatch-request, dispatch-returns}
use phm.Tests.Data.{nats}
use phm.Tests.Daemon.{engine}

space : IsBlank (codes " ")
unfolding in_set
space = (refl, tt)

seven : IsPlainId (codes "7")
unfolding erase_leading erase_trailing in_set
seven = record {
  no_stop = ground arith;
  no_quote = ground arith;
  no_leading = refl;
  no_trailing = refl;
}

engine_free : engine.locked ≡ false
unfolding create
engine_free = refl

dispatch-request_example :
    dispatch nats none engine (request (codes " ") (codes "7") (codes "list_entities") (codes "}"))
    ≡ route nats none engine
        (codes "7")
        (request (codes " ") (codes "7") (codes "list_entities") (codes "}"))
        (codes "list_entities")
dispatch-request_example =
    dispatch-request nats none engine (codes " ") (codes "7") (codes "list_entities") (codes "}")
      space seven (ground arith)

dispatch-returns_example :
    ((named_method (codes "{\"method\":\"get_stats\"}") ≡ some (codes "get_stats"))
      × (dispatch nats none engine (codes "{\"method\":\"get_stats\"}") ≡ failed self_deadlock))
    ⊎ ((named_method (codes "{\"method\":\"get_stats\"}") ≢ some (codes "get_stats"))
        × Frees (dispatch nats none engine (codes "{\"method\":\"get_stats\"}")))
dispatch-returns_example =
    dispatch-returns nats none engine (codes "{\"method\":\"get_stats\"}") engine_free
