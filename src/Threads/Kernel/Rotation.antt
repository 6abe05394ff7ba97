-- ===== src/Threads/Kernel/Rotation.antt =====
-- The ready list is first come, first served: a ready thread runs after those before it.
use cop5614nachos.Base.{ℕ, zero, suc, ◌≡◌, refl, ◌∙◌, List, [], ◌∷◌, ◌++◌}
use mathlib.Core.List.{append_assoc}
use cop5614nachos.Base.Lists.{length}
use cop5614nachos.Threads.Kernel.{Kernel, yield}

-- Whichever thread runs yields, `rounds` times.
unfoldable pub yields : ℕ → Kernel → Kernel
yields zero k = k
yields (suc rounds) k = yields rounds (yield k)

yield-next :
    (k : Kernel) (u : ℕ) (rest : List ℕ)
    → k.ready_list ≡ u ∷ rest
    → ((yield k).current_thread ≡ u) × ((yield k).ready_list ≡ rest ++ k.current_thread ∷ [])
unfolding yield
yield-next k u rest e = (rw e refl, rw e refl)

-- A thread that `n` others stand before in the ready list runs after `n + 1` yields, each by the thread
-- that runs then: no ready thread is passed over.
pub yields-current :
    (before after : List ℕ) (t : ℕ) (k : Kernel)
    → k.ready_list ≡ before ++ t ∷ after
    → (yields (suc (length before)) k).current_thread ≡ t
unfolding yields
yields-current [] after t k e = (yield-next k t after e).0
yields-current (u ∷ before) after t k e =
    yields-current before (after ++ k.current_thread ∷ []) t (yield k) (
      (yield-next k u (before ++ t ∷ after) e).1
      ∙ append_assoc before (t ∷ after) (k.current_thread ∷ []))
