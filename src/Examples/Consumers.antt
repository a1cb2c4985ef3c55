-- ===== src/Examples/Consumers.antt =====
-- Two streams over one file, which an update retires while both are active (lib/pins.js).
use shared_memory_fs.Prelude.{
  ◌≡◌, true, false, List, [], ◌∷◌, none, some, refl, ◌==◌, nat_eq, ◌&&◌, if◌then◌else◌,
}
use shared_memory_fs.Prelude.JsMap
use shared_memory_fs.Pins.{
  Call, acquires, finishes, retires, Thread, Consumer, step, run, finish_at, acquire, retain,
}
use shared_memory_fs.Pins.Counts.{Counted, active, bound_ids}
use shared_memory_fs.Pins.Releases.{new_thread, new_thread-Counted, run-Counted, finish-releases}

abbrev two_streams : List Call
two_streams = acquires 5 none ∷ acquires 5 (some 9) ∷ retires 5 31 ∷ finishes 1 ∷ []

run-Counted_example : Counted (run new_thread two_streams).0
run-Counted_example = run-Counted new_thread two_streams new_thread-Counted

abbrev one_stream : Thread
one_stream = (run new_thread (acquires 5 none ∷ retires 5 31 ∷ [])).0

abbrev stream : Consumer
stream = record { file = 5; on_close = none; held = true }

finish-releases_example : (step one_stream (finishes 0)).1 ≡ (
    if true && active (record stream { held = false } ∷ []) 5 == 0
    then bound_ids one_stream.pins 5
    else [])
unfolding run acquire retain finish_at JsMap.get JsMap.set JsMap.has step
finish-releases_example =
    finish-releases one_stream 0 stream (record stream { held = false } ∷ [])
      (run-Counted new_thread (acquires 5 none ∷ retires 5 31 ∷ []) new_thread-Counted) refl
