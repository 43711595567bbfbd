-- ===== src/System/Drained/Settled.antt =====
-- Where the parts of the composed system come to rest without a deadline.
use edgedelta_lambda_extensi.Common.{
  ◌++◌, subst, sym, ℕ, ◌≡◌, ◌⊎◌, inl, inr, refl, Bool, some, List, [], ◌∷◌, arith, All, ◌+◌, ◌≤◌,
  length,
}
use edgedelta_lambda_extensi.Host.{Host}
use edgedelta_lambda_extensi.Processor.Loop.{Processor}
use edgedelta_lambda_extensi.Pusher.Loop.{Conf}
use edgedelta_lambda_extensi.System.Steps.{
  idle, waiting, System, Move, pass, respond, enter_pusher, enter_processor, finish, step, run,
}

-- The moves between the parts, and the responses of flushes, where all pushes come to one outcome.
abbrev pub IsInternal : Bool → Move → Type 0
IsInternal ok (pass b) = b ≡ ok
IsInternal ok (respond i b) = b ≡ ok
IsInternal ok finish = Unit
IsInternal ok enter_pusher = Unit
IsInternal ok enter_processor = Unit
IsInternal ok _ = ⊥

-- The flushes in flight, and the answers that are on their way to an invocation.
abbrev pub pending : System → ℕ
pending s = length s.pusher.flights + length s.telling

-- The worker is between two invocations, or in one for which nothing was pending before and whose
-- channel the pusher still has.
abbrev pub Rests : System → System → Type 0
Rests before s =
    (s.worker ≡ idle)
    ⊎ ((n : ℕ) × (s.worker ≡ waiting n) × (s.pusher.done_c ≡ some n) × (pending before ≡ 0))

-- Nothing waits for a receiver or a response, and the worker rests.
abbrev pub IsSettled : System → System → Type 0
IsSettled before s = (s.sending ≡ []) × (s.telling ≡ []) × (s.pusher.flights ≡ []) × Rests before s

module _ (host : Host) (p : Processor) (conf : Conf) where
  -- Some moves between the parts, with responses of flushes, lead there.
  abbrev pub Settles : Bool → System → Type 0
  Settles ok s = (ms : List Move) × All (IsInternal ok) ms × IsSettled s (run host p conf ms s)

  pub settle_after :
      (ok : Bool) (m : Move) (s : System)
      → IsInternal ok m
      → pending s ≤ pending (step host p conf m s)
      → Settles ok (step host p conf m s)
      → Settles ok s
  unfolding run
  settle_after ok m s i le (ms, is, (e, f, a, inl w)) = (m ∷ ms, (i, is), (e, f, a, inl w))
  settle_after ok m s i le (ms, is, (e, f, a, inr (n, w, d, none_pending))) =
      (m ∷ ms, (i, is), (e, f, a, inr (n, w, d, ground arith)))

  run-append :
      (ms ns : List Move) (s : System)
      → run host p conf (ms ++ ns) s ≡ run host p conf ns (run host p conf ms s)
  unfolding run
  run-append [] ns s = refl
  run-append (m ∷ ms) ns s = run-append ms ns (step host p conf m s)

  Internal-append :
      (ok : Bool) (ms ns : List Move)
      → All (IsInternal ok) ms
      → All (IsInternal ok) ns
      → All (IsInternal ok) (ms ++ ns)
  Internal-append ok [] ns h k = k
  Internal-append ok (m ∷ ms) ns (h, hs) k = (h, Internal-append ok ms ns hs k)

  pub settle_run :
      (ok : Bool) (ms : List Move) (s : System)
      → All (IsInternal ok) ms
      → pending s ≤ pending (run host p conf ms s)
      → Settles ok (run host p conf ms s)
      → Settles ok s
  settle_run ok ms s i le (ns, is, (e, f, a, r)) = (
    ms ++ ns,
    Internal-append ok ms ns i is,
    subst (IsSettled s) (sym (run-append ms ns s)) (
      e,
      f,
      a,
      elim r [ inl w ↦ inl w | inr (n, w, d, z) ↦ inr (n, w, d, omega (arith, z, le)) ],
    ),
  )

  -- A move that leads to a rest without an invocation.
  pub idle_after :
      (ok : Bool) (m : Move) (s : System)
      → IsInternal ok m
      → ((ms : List Move) × All (IsInternal ok) ms
          × (let t = run host p conf ms (step host p conf m s) in
              (t.sending ≡ []) × (t.telling ≡ []) × (t.pusher.flights ≡ []) × (t.worker ≡ idle)))
      → Settles ok s
  unfolding run
  idle_after ok m s i (ms, is, (e, f, a, w)) = (m ∷ ms, (i, is), (e, f, a, inl w))
