-- ===== src/RateLimit/Window.antt =====
-- How many requests a window holds, however the commands of concurrent requests mix.
use zenith_voip.Prelude.{
  ℕ, ◌+◌, ◌≤◌, ◌≡◌, Bool, true, false, List, [], ◌∷◌, ◌++◌, ltb, if◌then◌else◌,
}
use zenith_voip.RateLimit.{
  rate_limit_window, Phase, arrived, pruned, admitted, passed, limited, rate_limit_middleware,
}

-- The times of the last window before `now`.
unfoldable pub recent : ℕ → List ℕ → List ℕ
recent now [] = []
recent now (t ∷ ts) =
    let rest = recent now ts in if ltb now (t + rate_limit_window) then t ∷ rest else rest

abbrev pub Request : Type 0
Request = ℕ × Phase

abbrev pub is_admitted : Phase → Bool
is_admitted admitted = true
is_admitted _ = false

-- How many requests stand between their count and their addition.
unfoldable pub between : List Request → ℕ
between [] = 0
between ((now, p) ∷ rs) = let rest = between rs in if is_admitted p then 1 + rest else rest

-- The addition of a request to the set, which is what lets it go on.
abbrev pub adds : Request → List ℕ → List ℕ
adds (now, admitted) done = now ∷ done
adds (now, arrived) done = done
adds (now, pruned) done = done
adds (now, passed) done = done
adds (now, limited) done = done

-- A client's requests while Redis answers, at most `k` of which stand between their count and their
-- addition at a time: the clock, the set, the requests that have come, and the times of those that
-- were added. A request comes with the time of its clock; the requests run in any order, one command
-- at a time; and the set may expire when its members are out of the window.
pub data Reach (k : ℕ) : ℕ → List ℕ → List Request → List ℕ → Type 0 where
  quiet : (now : ℕ) → Reach k now [] [] []
  comes :
      (before now : ℕ) (set : List ℕ) (rs : List Request) (done : List ℕ)
      → before ≤ now
      → Reach k before set rs done
      → Reach k now set ((now, arrived) ∷ rs) done
  runs :
      (clock now : ℕ) (p : Phase) (set : List ℕ) (first last : List Request) (done : List ℕ)
      → Reach k clock set (first ++ ((now, p) ∷ last)) done
      → now ≤ clock
      → between (first ++ ((now, (rate_limit_middleware now p set).0) ∷ last)) ≤ k
      → Reach k clock
          (rate_limit_middleware now p set).1
          (first ++ ((now, (rate_limit_middleware now p set).0) ∷ last))
          (adds (now, p) done)
  expires :
      (clock : ℕ) (set : List ℕ) (rs : List Request) (done : List ℕ)
      → recent clock set ≡ []
      → Reach k clock set rs done
      → Reach k clock [] rs done
