-- ===== src/Pusher/Failures.antt =====
-- What a failing push comes to in pushers/pusher.go, and which responses an invocation gets.
use edgedelta_lambda_extensi.Common.{
  ℕ, suc, ◌+◌, ◌/◌, ◌≤◌, ◌<◌, ◌≡◌, refl, Bool, false, none, some, List, [], ◌∷◌, ◌++◌, arith, pos,
  negsuc, quot_ℤ, length, drop,
}
use edgedelta_lambda_extensi.Common.{ltb, length-drop, append-nil, Bool-cases, inl, inr}
use edgedelta_lambda_extensi.Text.Bytes.{Bytes}
use edgedelta_lambda_extensi.Pusher.Flush.{dropped_bytes, cut_at, drop_oldest, find_start}
use edgedelta_lambda_extensi.Pusher.Loop.{
  Conf, live, expired, running, State, chunk, runtime_done, ctx_done, invoke, flush_resp,
  force_flush, is_empty, signal_if_set, step, run, on_input, on_invoke, on_runtime_done,
  on_flush_resp, pick, finish_flush, push_buffer, Output, on_ctx_done, on_force_flush,
}
use edgedelta_lambda_extensi.Pusher.Signals.{told}
use edgedelta_lambda_extensi.Pusher.Ledger.{weigh, weigh-nil, delivered, lost}

-- A negative buffer size, at or below -10, makes every failed flush panic, whatever its payload.
pub negative_buffer_panics :
    (m : ℕ) (payload : Bytes) → 10 ≤ suc m → dropped_bytes (negsuc m) payload ≡ none
unfolding dropped_bytes cut_at quot_ℤ
negative_buffer_panics m payload h = ground arith

find_start-le :
    (start i : ℕ) (rest : Bytes)
    → start ≤ i
    → (start ≤ find_start start i rest) × (find_start start i rest ≤ i + length rest)
unfolding find_start
find_start-le start i [] h = omega arith
find_start-le start i (c ∷ rest) h = ground (arith, find_start-le start (i + 1) rest)

kept_whole : (k : ℕ) (payload : Bytes) → length payload ≤ k → dropped_bytes (pos k) payload ≡ some 0
unfolding dropped_bytes
kept_whole k payload h = ground arith

-- With a buffer size of k bytes, a failed flush of a longer payload drops at least a tenth of k, and
-- no more than there is.
pub dropped_bytes_bounds :
    (k : ℕ) (payload : Bytes)
    → k < length payload
    → (n : ℕ) × (dropped_bytes (pos k) payload ≡ some n) × (k / 10 ≤ n) × (n ≤ length payload)
unfolding dropped_bytes cut_at quot_ℤ drop_oldest
dropped_bytes_bounds k payload h =
    let start = k / 10 in
    let found = find_start-le start start (drop start payload) (omega arith) in
    (
      find_start start start (drop start payload),
      ground arith,
      ground arith,
      ground (arith, found, length-drop start payload),
    )

-- A buffer size that is not negative makes no failed flush panic.
pub dropped_bytes-some :
    (k : ℕ) (payload : Bytes) → (n : ℕ) × (dropped_bytes (pos k) payload ≡ some n)
dropped_bytes-some k payload = elim (Bool-cases (ltb k (length payload))) [
  | inl e ↦ let (n, at, _, _) = dropped_bytes_bounds k payload (ground arith) in (n, at)
  | inr e ↦ (0, kept_whole k payload (ground arith))
]

module _ (w : Bytes → ℕ) (conf : Conf) where
  -- While the loop runs, does not flush at the next invoke, and the context of its invocation is
  -- done: a failed push at the end of the runtime, for the end of the context, or on a forced flush
  -- loses, by any weight of the records, all that is in the buffer and delivers nothing, leaves the
  -- buffer empty and starts no flush.
  pub failed_push_gives_up :
      (s : State)
      → s.phase ≡ running
      → conf.flush_at_next_invoke ≡ false
      → s.ctx ≡ expired
      → let gives_up = λ (r : State × List Output).
        (lost w r.1 ≡ weigh w s.buf)
        × (delivered w r.1 ≡ 0)
        × (r.0.buf ≡ [])
        × (r.0.flights ≡ s.flights) in
        gives_up (step conf (runtime_done false) s)
        × gives_up (step conf (ctx_done false) s)
        × gives_up (step conf (force_flush false) s)
  unfolding step on_input on_runtime_done on_ctx_done on_force_flush push_buffer delivered lost
  failed_push_gives_up s run mode ctx = ground (arith, weigh-nil w)

is_empty-append : (a b : Bytes) (c : ℕ) → is_empty (a ++ c ∷ b) ≡ false
is_empty-append [] b c = refl
is_empty-append (x ∷ a) b c = refl

-- The response of the only flush is passed on.
flight_completes :
    (conf : Conf) (n k : ℕ) (p : Bytes) (ok : Bool) (s : State)
    → s.phase ≡ running
    → conf.buffer_size ≡ pos k
    → s.flights ≡ p ∷ []
    → s.done_c ≡ some n
    → told n (step conf (flush_resp 0 ok) s).1 ≡ 1
unfolding step on_input on_flush_resp pick finish_flush told signal_if_set
flight_completes conf n k p ok s run size one due =
    let (m, at) = dropped_bytes-some k p in ground arith

flush_starts :
    (conf : Conf) (ok : Bool) (s : State) (c : ℕ) (b : Bytes)
    → s.phase ≡ running
    → conf.flush_at_next_invoke ≡ false
    → s.ctx ≡ live
    → let buf = s.buf ++ c ∷ b in
      step conf (runtime_done ok) (record s { buf = buf })
      ≡ (record s { buf = []; flights = s.flights ++ buf ∷ [] }, [])
unfolding step on_input on_runtime_done
flush_starts conf ok s c b phase mode ctx = ground (arith, is_empty-append s.buf b c)

-- When the pusher does not flush at the next invoke, has a buffer size that is not negative, and has
-- no flush in flight: an invocation whose runtime ends with something in the buffer, while its
-- context is live, is told exactly once that the pusher is done, when the flush that this starts has
-- responded, whether the push succeeds or not.
pub invocation_completes :
    (conf : Conf) (n k c : ℕ) (b : Bytes) (ok ok' : Bool) (s : State)
    → s.phase ≡ running
    → conf.flush_at_next_invoke ≡ false
    → conf.buffer_size ≡ pos k
    → s.flights ≡ []
    → let is = invoke n ∷ chunk (c ∷ b) ∷ runtime_done ok ∷ flush_resp 0 ok' ∷ [] in
      told n (run conf is s).1 ≡ 1
unfolding run
invocation_completes conf n k c b ok ok' s phase mode size none_in_flight =
    let s1 = record s { ctx = live; done_c = some n } in
    let buf = s.buf ++ c ∷ b in
    let t = record s1 { buf = []; flights = s.flights ++ buf ∷ [] } in
    let e1 : step conf (invoke n) s ≡ (s1, []) = unfold step on_input on_invoke in ground arith in
    let e2 : step conf (chunk (c ∷ b)) s1 ≡ (record s1 { buf = buf }, []) =
      unfold step on_input in ground arith in
    rw (e1, e2, flush_starts conf ok s1 c b phase mode refl, append-nil)
      (flight_completes conf n k buf ok' t phase size (rw none_in_flight) refl)
