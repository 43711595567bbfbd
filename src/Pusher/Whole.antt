-- ===== src/Pusher/Whole.antt =====
-- The framing of the buffer and of the payloads in flight in pushers/pusher.go.
use edgedelta_lambda_extensi.Common.{if_either, Option-cases, inl, inr}
use edgedelta_lambda_extensi.Common.{
  ℕ, zero, suc, ◌≡◌, refl, Bool, true, false, Option, none, some, List, [], ◌∷◌, arith, drop, All,
  All-append,
}
use edgedelta_lambda_extensi.Text.Bytes.{Bytes}
use edgedelta_lambda_extensi.Text.Records.{IsFramed, framed_from, IsFramed-append}
use edgedelta_lambda_extensi.Pusher.Flush.{dropped_bytes}
use edgedelta_lambda_extensi.Pusher.Loop.{
  cons_pick, failed_flush, finish_flush, Conf, State, Input, chunk, runtime_done, expire, ctx_done,
  invoke, flush_resp, stop, force_flush, Output, on_runtime_done, on_ctx_done, on_invoke, pick,
  on_response, on_flush_resp, on_stop, on_force_flush, on_expire, on_input, is_running, step,
}
use edgedelta_lambda_extensi.Pusher.Records.{dropped_bytes-IsFramed}

-- A state in which the buffer and every payload in flight are framed.
pub record IsWhole (s : State) : Type 0 where
  pub buf : IsFramed s.buf
  pub flights : All IsFramed s.flights

abbrev pub IsFramedInput : Input → Type 0
IsFramedInput (chunk b) = IsFramed b
IsFramedInput _ = Unit

-- What a pick behind the head comes from.
pub pick-suc :
    (x y : Bytes) (ys : List Bytes) (o : Option (Bytes × List Bytes))
    → cons_pick x o ≡ some (y, ys)
    → (zs : List Bytes) × (o ≡ some (y, zs)) × (ys ≡ x ∷ zs)
pick-suc x y ys none e = cc
pick-suc x y ys (some (z, zs)) e = (zs, ground arith, ground arith)

pub pick-All :
    (i : ℕ) (xs : List Bytes) (y : Bytes) (ys : List Bytes)
    → All IsFramed xs
    → pick i xs ≡ some (y, ys)
    → IsFramed y × All IsFramed ys
unfolding pick
pick-All i [] y ys h e = cc
pick-All zero (x ∷ xs) y ys (h, hs) e = ground arith
pick-All (suc i) (x ∷ xs) y ys (h, hs) e =
    let (zs, picked, rest) = pick-suc x y ys (pick i xs) e in
    let (hy, hz) = pick-All i xs y zs hs picked in (hy, rw rest (h, hz))

module _ (conf : Conf) where
  failed_flush-IsWhole :
      (o : Option ℕ) (payload : Bytes) (rest : List Bytes) (s : State)
      → dropped_bytes conf.buffer_size payload ≡ o
      → IsWhole s
      → IsFramed payload
      → All IsFramed rest
      → IsWhole (failed_flush o payload rest s).0
  unfolding failed_flush on_response
  failed_flush-IsWhole none payload rest s e h hp hr = record { buf = h.buf; flights = h.flights }
  failed_flush-IsWhole (some n) payload rest s e h hp hr = record {
    buf =
        IsFramed-append (drop n payload) s.buf
          (dropped_bytes-IsFramed conf.buffer_size payload n e hp).1 h.buf;
    flights = hr;
  }

  finish_flush-IsWhole :
      (ok : Bool) (payload : Bytes) (rest : List Bytes) (s : State)
      → IsWhole s
      → IsFramed payload
      → All IsFramed rest
      → IsWhole (finish_flush conf ok payload rest s).0
  unfolding finish_flush
  finish_flush-IsWhole true payload rest s h hp hr = record { buf = h.buf; flights = hr }
  finish_flush-IsWhole false payload rest s h hp hr =
      failed_flush-IsWhole _ payload rest s refl h hp hr

  on_flush_resp-IsWhole :
      (i : ℕ) (ok : Bool) (s : State) → IsWhole s → IsWhole (on_flush_resp conf i ok s).0
  unfolding on_flush_resp
  on_flush_resp-IsWhole i ok s h = elim (Option-cases (pick i s.flights)) [
    | inl e ↦ rw (e, on_flush_resp) h
    | inr ((payload, rest), e) ↦
        let (whole, others) = pick-All i s.flights payload rest h.flights e in
        rw (e, on_flush_resp) (finish_flush-IsWhole ok payload rest s h whole others)
  ]

  on_input-IsWhole :
      (i : Input) (s : State) → IsFramedInput i → IsWhole s → IsWhole (on_input conf i s).0
  unfolding on_input framed_from
  on_input-IsWhole (chunk b) s hb h = record {
    buf = IsFramed-append s.buf b h.buf hb;
    flights = h.flights;
  }
  on_input-IsWhole (runtime_done ok) s hb h =
      unfold on_runtime_done in ground (arith, All-append IsFramed s.flights (s.buf ∷ []))
  on_input-IsWhole expire s hb h = unfold on_expire in ground arith
  on_input-IsWhole (ctx_done ok) s hb h = unfold on_ctx_done in ground arith
  on_input-IsWhole (invoke n) s hb h =
      unfold on_invoke in ground (arith, All-append IsFramed s.flights (s.buf ∷ []))
  on_input-IsWhole (flush_resp i ok) s hb h = on_flush_resp-IsWhole i ok s h
  on_input-IsWhole (stop ok) s hb h = unfold on_stop in ground arith
  on_input-IsWhole (force_flush ok) s hb h = unfold on_force_flush in ground arith

  -- Every case of the loop keeps the buffer and the payloads in flight framed.
  pub step-IsWhole :
      (i : Input) (s : State) → IsFramedInput i → IsWhole s → IsWhole (step conf i s).0
  unfolding step
  step-IsWhole i s hi h =
      if_either (λ (r : State × List Output). IsWhole r.0) (is_running s.phase) (on_input conf i s)
        (s, []) (λ _. on_input-IsWhole i s hi h) (λ _. h)
