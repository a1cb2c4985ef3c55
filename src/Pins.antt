-- ===== src/Pins.antt =====
-- lib/pins.js: the consumers of shared bytes in one thread. A projected file is its identity; a
-- consumer is the closure that `acquire` returns, with its `held`.
pub mod Counts
pub mod Releases
use shared_memory_fs.Prelude.{
  ℕ, zero, suc, ◌+◌, Bool, false, true, ◌&&◌, not, List, [], ◌∷◌, ◌++◌, Option, none, some, ◌==◌,
  nat_eq, if◌then◌else◌,
}
use shared_memory_fs.Prelude.JsMap
use shared_memory_fs.Prelude.JsMap.{JsMap}
use shared_memory_fs.Prelude.JsSet

pub record Pins : Type 0 where
  pub counts : JsMap ℕ ℕ
  pub retired : JsMap ℕ ℕ
  pub closers : List ℕ

abbrev pub no_pins : Pins
no_pins = record { counts = []; retired = []; closers = [] }

pub record Consumer : Type 0 where
  pub file : ℕ
  pub on_close : Option ℕ
  pub held : Bool

abbrev count_of : Pins → ℕ → ℕ
count_of p file = elim (JsMap.get p.counts file) [ none ↦ 0 | some n ↦ n ]

abbrev with_closer : Pins → Option ℕ → Pins
with_closer p none = p
with_closer p (some c) = record p { closers = JsSet.add p.closers c }

abbrev without_closer : Pins → Option ℕ → Pins
without_closer p none = p
without_closer p (some c) = record p { closers = JsSet.remove p.closers c }

unfoldable pub acquire : Pins → ℕ → Option ℕ → Pins × Consumer
acquire p file on_close = (
  with_closer (record p { counts = JsMap.set p.counts file (count_of p file + 1) }) on_close,
  record { file = file; on_close = on_close; held = true },
)

-- The last consumer is gone: the retireId of a version that was retired meanwhile is released.
unfoldable pub last_done : Pins → ℕ → Pins × List ℕ
last_done p file =
    let q = record p { counts = JsMap.delete p.counts file } in
    elim (JsMap.get p.retired file) [
      | none ↦ (q, [])
      | some id ↦ (record q { retired = JsMap.delete q.retired file }, id ∷ [])
    ]

-- `#drop`, with the retireIds that it releases.
unfoldable pub drop : Pins → ℕ → Pins × List ℕ
unfolding last_done
drop p file = elim (JsMap.get p.counts file) [
  | none ↦ (p, [])
  | some zero ↦ last_done p file
  | some (suc zero) ↦ last_done p file
  | some (suc (suc n)) ↦ (record p { counts = JsMap.set p.counts file (suc n) }, [])
]

-- A call of the closure that `acquire` returned.
unfoldable pub done : Pins → Consumer → Pins × List ℕ
unfolding drop
done p c = if c.held then drop (without_closer p c.on_close) c.file else (p, [])

-- The projection may have no such file.
unfoldable pub retain : Pins → Option ℕ → ℕ → Pins × Bool
retain p none id = (p, false)
retain p (some file) id =
    if JsMap.has p.counts file
    then (record p { retired = JsMap.set p.retired file id }, true)
    else (p, false)

-- `close`, with the hooks that it calls.
unfoldable pub close : Pins → Pins × List ℕ
close p = (no_pins, p.closers)

-- The pins of a thread with every consumer that it handed out.
pub record Thread : Type 0 where
  pub pins : Pins
  pub consumers : List Consumer

pub data Call : Type 0 where
  acquires : ℕ → Option ℕ → Call
  finishes : ℕ → Call
  retires : ℕ → ℕ → Call

-- The consumer at an index, and the consumers with that one done.
unfoldable pub finish_at : ℕ → List Consumer → Option (Consumer × List Consumer)
finish_at i [] = none
finish_at zero (c ∷ cs) = some (c, record c { held = false } ∷ cs)
finish_at (suc i) (c ∷ cs) = elim (finish_at i cs) [ none ↦ none | some (d, ds) ↦ some (d, c ∷ ds) ]

-- One call, with the retireIds that it releases.
unfoldable pub step : Thread → Call → Thread × List ℕ
unfolding acquire done retain finish_at
step t (acquires file on_close) =
    let (p, c) = acquire t.pins file on_close in
    (record { pins = p; consumers = c ∷ t.consumers }, [])
step t (finishes i) = elim (finish_at i t.consumers) [
  | none ↦ (t, [])
  | some (c, cs) ↦ let (p, ids) = done t.pins c in (record { pins = p; consumers = cs }, ids)
]
step t (retires file id) =
    let (p, kept) = retain t.pins (some file) id in (record t { pins = p }, [])

-- A list of calls, with all the retireIds that they release, in order.
unfoldable pub run : Thread → List Call → Thread × List ℕ
unfolding step
run t [] = (t, [])
run t (call ∷ calls) = let (u, ids) = step t call in let (v, rest) = run u calls in (v, ids ++ rest)
