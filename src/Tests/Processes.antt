-- ===== src/Tests/Processes.antt =====
-- Cases of the reaping of processes.
use winter_service_tmux.Prelude.{zero, suc, ◌≡◌, refl, some, [], ◌∷◌, arith, nat_eq, text_eq}
use winter_service_tmux.Reaper.{Pgrep, reap_descendants, listed, term, kill, slept}
use winter_service_tmux.Reaper.Signals.{AreExplained, reap_descendants-AreExplained}
use winter_service_tmux.Reaper.Depth.{Falls, IsOver, reap_descendants-IsOver}

-- each process over 1 has the child below it, and 1 has none
abbrev chain : Pgrep
chain h zero = some []
chain h (suc zero) = some []
chain h (suc (suc n)) = some (suc n ∷ [])

chain-Falls : Falls chain (λ p. p)
chain-Falls h zero [] e = tt
chain-Falls h zero (c ∷ cs) e = cc
chain-Falls h (suc zero) [] e = tt
chain-Falls h (suc zero) (c ∷ cs) e = cc
chain-Falls h (suc (suc n)) [] e = tt
chain-Falls h (suc (suc n)) (c ∷ []) e = let same : suc n ≡ c = cc in (omega (arith, same), tt)
chain-Falls h (suc (suc n)) (c ∷ d ∷ cs) e = cc

reap_descendants-AreExplained_example :
    AreExplained (3 ∷ []) ((reap_descendants 4 chain (3 ∷ []) []).1)
reap_descendants-AreExplained_example = reap_descendants-AreExplained 4 chain (3 ∷ [])

reap_descendants-IsOver_example : IsOver ((reap_descendants 4 chain (3 ∷ []) []).0)
reap_descendants-IsOver_example =
    reap_descendants-IsOver chain (λ p. p) chain-Falls 4 (3 ∷ []) [] (omega arith, tt)

-- A root below another root is signalled.
lower_root :
    (reap_descendants 4 chain (3 ∷ 2 ∷ []) []).1
    ≡ kill 1
      ∷ kill 2
      ∷ kill 1
      ∷ listed 1 []
      ∷ listed 2 (1 ∷ [])
      ∷ listed 1 []
      ∷ listed 2 (1 ∷ [])
      ∷ listed 3 (2 ∷ [])
      ∷ slept
      ∷ term 1
      ∷ term 2
      ∷ term 1
      ∷ listed 1 []
      ∷ listed 2 (1 ∷ [])
      ∷ listed 1 []
      ∷ listed 2 (1 ∷ [])
      ∷ listed 3 (2 ∷ [])
      ∷ []
unfolding reap_descendants
lower_root = refl
