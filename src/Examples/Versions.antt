-- ===== src/Examples/Versions.antt =====
-- A kernel with two workers that both have yet to ACK an update (lib/kernel.js).
use shared_memory_fs.Prelude.{ℕ, Bool, false, List, [], ◌∷◌, refl, inl, nat_eq, ◌==◌}
use shared_memory_fs.Prelude.JsMap
use shared_memory_fs.Prelude.JsMap.{IsMap}
use shared_memory_fs.Prelude.JsSet
use shared_memory_fs.Prelude.JsSet.{contains}
use shared_memory_fs.Retirement.{Kernel, flush, hold, settle}
use shared_memory_fs.Retirement.Settle.{update_of, pends, holds, Agree, settle-Agree}

-- No exception.
abbrev never : ℕ → Bool
never = λ _. false

abbrev linked : Kernel
linked = record {
  links = 1 ∷ 2 ∷ [];
  acks = [];
  retired = [];
  freed = [];
  next_update_id = 4;
  next_retire_id = 7;
}

-- The versions of entries 30 and 31 are replaced; the main thread reads the first.
abbrev published : Kernel × ℕ × List ℕ
published = flush linked (30 ∷ 31 ∷ []) (λ id. id == 8)

settle-Agree_example : Agree published.0 (settle published.0 (8 ∷ 9 ∷ [])) 8
unfolding flush update_of pends holds JsMap.get contains hold JsMap.set JsSet.add
settle-Agree_example = settle-Agree published.0 (8 ∷ 9 ∷ []) 8 (inl (0, refl))
