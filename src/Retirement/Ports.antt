-- ===== src/Retirement/Ports.antt =====
-- What the messages on the two ports of a worker say of an update and of a version.
use shared_memory_fs.Prelude.{
  ℕ, ◌≡◌, Bool, false, true, ◌&&◌, ◌||◌, List, [], ◌∷◌, ◌++◌, ◌==◌, nat_eq, arith, refl,
}
use shared_memory_fs.Prelude.JsSet.{contains, Distinct}
use shared_memory_fs.Retirement.System.{Update, Report, ack, released}

-- An update on its way retires a version.
unfoldable pub waiting : List Update → ℕ → ℕ → Bool
waiting [] u v = false
waiting (m ∷ ms) u v = m.id == u && contains m.retired v || waiting ms u v

-- An ACK on its way retains a version.
unfoldable pub acked_in : List Report → ℕ → ℕ → Bool
acked_in [] u v = false
acked_in (ack t vs ∷ rs) u v = t == u && contains vs v || acked_in rs u v
acked_in (released vs ∷ rs) u v = acked_in rs u v

-- A release on its way names a version.
unfoldable pub told : List Report → ℕ → Bool
told [] v = false
told (ack t vs ∷ rs) v = told rs v
told (released vs ∷ rs) v = contains vs v || told rs v

unfoldable pub ids : List Update → List ℕ
ids [] = []
ids (m ∷ ms) = m.id ∷ ids ms

-- The updates whose ACK has not arrived: ACKs on their way, then updates on theirs.
unfoldable pub tags : List Report → List Update → List ℕ
tags [] ms = ids ms
tags (ack t vs ∷ rs) ms = t ∷ tags rs ms
tags (released vs ∷ rs) ms = tags rs ms

pub waiting-append :
    (ms : List Update) (m : Update) (u v : ℕ)
    → waiting (ms ++ (m ∷ [])) u v ≡ (waiting ms u v || m.id == u && contains m.retired v)
unfolding waiting
waiting-append [] m u v = ground arith
waiting-append (n ∷ ms) m u v = ground (arith, waiting-append ms m u v)

pub waiting-ids : (ms : List Update) (u v : ℕ) → waiting ms u v ≡ true → contains (ids ms) u ≡ true
unfolding waiting ids contains
waiting-ids [] u v h = h
waiting-ids (m ∷ ms) u v h = ground (arith, waiting-ids ms u v)

pub acked_in-ack :
    (rs : List Report) (t u v : ℕ) (vs : List ℕ)
    → acked_in (rs ++ (ack t vs ∷ [])) u v ≡ (acked_in rs u v || t == u && contains vs v)
unfolding acked_in
acked_in-ack [] t u v vs = ground arith
acked_in-ack (ack a b ∷ rs) t u v vs = ground (arith, acked_in-ack rs t u v vs)
acked_in-ack (released b ∷ rs) t u v vs = acked_in-ack rs t u v vs

pub acked_in-released :
    (rs : List Report) (u v : ℕ) (vs : List ℕ)
    → acked_in (rs ++ (released vs ∷ [])) u v ≡ acked_in rs u v
unfolding acked_in
acked_in-released [] u v vs = refl
acked_in-released (ack a b ∷ rs) u v vs = ground (arith, acked_in-released rs u v vs)
acked_in-released (released b ∷ rs) u v vs = acked_in-released rs u v vs

pub told-ack :
    (rs : List Report) (t v : ℕ) (vs : List ℕ) → told (rs ++ (ack t vs ∷ [])) v ≡ told rs v
unfolding told
told-ack [] t v vs = refl
told-ack (ack a b ∷ rs) t v vs = told-ack rs t v vs
told-ack (released b ∷ rs) t v vs = ground (arith, told-ack rs t v vs)

pub told-released :
    (rs : List Report) (v : ℕ) (vs : List ℕ)
    → told (rs ++ (released vs ∷ [])) v ≡ (told rs v || contains vs v)
unfolding told
told-released [] v vs = ground arith
told-released (ack a b ∷ rs) v vs = told-released rs v vs
told-released (released b ∷ rs) v vs = ground (arith, told-released rs v vs)

-- Applying an update turns it into its ACK.
pub tags-ack :
    (rs : List Report) (m : Update) (ms : List Update) (vs : List ℕ)
    → tags (rs ++ (ack m.id vs ∷ [])) ms ≡ tags rs (m ∷ ms)
unfolding tags ids
tags-ack [] m ms vs = refl
tags-ack (ack a b ∷ rs) m ms vs = ground (arith, tags-ack rs m ms vs)
tags-ack (released b ∷ rs) m ms vs = tags-ack rs m ms vs

pub tags-released :
    (rs : List Report) (ms : List Update) (vs : List ℕ)
    → tags (rs ++ (released vs ∷ [])) ms ≡ tags rs ms
unfolding tags
tags-released [] ms vs = refl
tags-released (ack a b ∷ rs) ms vs = ground (arith, tags-released rs ms vs)
tags-released (released b ∷ rs) ms vs = tags-released rs ms vs

pub tags-post :
    (rs : List Report) (ms : List Update) (m : Update)
    → tags rs (ms ++ (m ∷ [])) ≡ tags rs ms ++ (m.id ∷ [])
unfolding tags ids
tags-post [] ms m = posted ms m
  where
    posted : (ms : List Update) (m : Update) → ids (ms ++ (m ∷ [])) ≡ ids ms ++ (m.id ∷ [])
    posted [] m = refl
    posted (n ∷ ms) m = ground (arith, posted ms m)
tags-post (ack a b ∷ rs) ms m = ground (arith, tags-post rs ms m)
tags-post (released b ∷ rs) ms m = tags-post rs ms m

-- An update that is next in its inbox comes there once.
pub tags-head :
    (rs : List Report) (m : Update) (ms : List Update)
    → Distinct (tags rs (m ∷ ms))
    → contains (ids ms) m.id ≡ false
unfolding tags ids
tags-head [] m ms d = d.0
tags-head (ack a b ∷ rs) m ms d = tags-head rs m ms d.1
tags-head (released b ∷ rs) m ms d = tags-head rs m ms d

pub waiting-tags :
    (rs : List Report) (ms : List Update) (u v : ℕ)
    → waiting ms u v ≡ true
    → contains (tags rs ms) u ≡ true
unfolding tags contains
waiting-tags [] ms u v h = waiting-ids ms u v h
waiting-tags (ack a b ∷ rs) ms u v h = ground (arith, waiting-tags rs ms u v)
waiting-tags (released b ∷ rs) ms u v h = waiting-tags rs ms u v h

pub acked_in-tags :
    (rs : List Report) (ms : List Update) (u v : ℕ)
    → acked_in rs u v ≡ true
    → contains (tags rs ms) u ≡ true
unfolding tags acked_in contains
acked_in-tags [] ms u v h = absurd (ground arith)
acked_in-tags (ack a b ∷ rs) ms u v h = ground (arith, acked_in-tags rs ms u v)
acked_in-tags (released b ∷ rs) ms u v h = acked_in-tags rs ms u v h
