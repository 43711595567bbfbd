-- ===== src/Pusher/Ledger.antt =====
-- Where the records go that the pusher of pushers/pusher.go receives.
use edgedelta_lambda_extensi.Common.{if_either, Option-cases, inl, inr}
use edgedelta_lambda_extensi.Common.{
  ℕ, zero, suc, ◌+◌, ◌≡◌, refl, sym, ap, ◌∙◌, Bool, true, false, Option, none, some, List, [], ◌∷◌,
  ◌++◌, arith, take, drop, All, if◌then◌else◌, take-append-drop,
}
use edgedelta_lambda_extensi.Text.Bytes.{Bytes}
use edgedelta_lambda_extensi.Text.Records.{records, records-append, IsFramed, framed_from}
use edgedelta_lambda_extensi.Pusher.Flush.{dropped_bytes}
use edgedelta_lambda_extensi.Pusher.Loop.{
  failed_flush, finish_flush, Conf, Phase, running, returned, State, Input, chunk, runtime_done,
  expire, ctx_done, invoke, flush_resp, stop, force_flush, Output, push, flush, drop_logs,
  push_buffer, signal_if_set, on_runtime_done, on_ctx_done, on_invoke, pick, on_response,
  on_flush_resp, on_stop, on_force_flush, on_expire, on_input, is_running, step, run, start, start,
}
use edgedelta_lambda_extensi.Pusher.Records.{dropped_bytes-IsFramed}
use edgedelta_lambda_extensi.Pusher.Whole.{IsWhole, IsFramedInput, pick-suc, pick-All, step-IsWhole}

-- A weight for each record: 1 for the records of interest and 0 for the others counts them.
module _ (w : Bytes → ℕ) where
  unfoldable pub total : List Bytes → ℕ
  total [] = 0
  total (r ∷ rs) = w r + total rs

  -- The records of a payload.
  unfoldable pub weigh : Bytes → ℕ
  unfolding total
  weigh b = total (records b)

  total-append : (xs ys : List Bytes) → total (xs ++ ys) ≡ total xs + total ys
  unfolding total
  total-append [] ys = omega arith
  total-append (x ∷ xs) ys = omega (arith, total-append xs ys)

  weigh-append : (a b : Bytes) → IsFramed a → weigh (a ++ b) ≡ weigh a + weigh b
  unfolding weigh
  weigh-append a b h = rw (records-append a b h) (total-append (records a) (records b))

  pub weigh-nil : weigh [] ≡ 0
  unfolding weigh total records
  weigh-nil = refl

  -- The records of several payloads.
  unfoldable pub weigh_all : List Bytes → ℕ
  weigh_all [] = 0
  weigh_all (b ∷ bs) = weigh b + weigh_all bs

  weigh_all-snoc : (bs : List Bytes) (b : Bytes) → weigh_all (bs ++ b ∷ []) ≡ weigh_all bs + weigh b
  unfolding weigh_all
  weigh_all-snoc [] b = omega arith
  weigh_all-snoc (x ∷ bs) b = omega (arith, weigh_all-snoc bs b)

  abbrev weigh_buffer : Phase → Bytes → ℕ
  weigh_buffer returned b = 0
  weigh_buffer _ b = weigh b

  -- What the pusher still has: its buffer, until the loop returns, and the payloads in flight.
  unfoldable pub held : State → ℕ
  held s = weigh_buffer s.phase s.buf + weigh_all s.flights

  unfoldable pub delivered : List Output → ℕ
  delivered [] = 0
  delivered (push b true ∷ os) = weigh b + delivered os
  delivered (flush b true ∷ os) = weigh b + delivered os
  delivered (_ ∷ os) = delivered os

  -- What a failed push of the loop itself gives up, and what a failed flush drops.
  unfoldable pub lost : List Output → ℕ
  lost [] = 0
  lost (push b false ∷ os) = weigh b + lost os
  lost (drop_logs b ∷ os) = weigh b + lost os
  lost (_ ∷ os) = lost os

  pub delivered-append : (a b : List Output) → delivered (a ++ b) ≡ delivered a + delivered b
  unfolding delivered
  delivered-append [] b = omega arith
  delivered-append (push c true ∷ a) b = omega (arith, delivered-append a b)
  delivered-append (flush c true ∷ a) b = omega (arith, delivered-append a b)
  delivered-append (_ ∷ a) b = delivered-append a b

  pub lost-append : (a b : List Output) → lost (a ++ b) ≡ lost a + lost b
  unfolding lost
  lost-append [] b = omega arith
  lost-append (push c false ∷ a) b = omega (arith, lost-append a b)
  lost-append (drop_logs c ∷ a) b = omega (arith, lost-append a b)
  lost-append (_ ∷ a) b = lost-append a b

  held_start : held start ≡ 0
  unfolding held weigh_all
  held_start = omega (arith, weigh-nil)

  unfoldable pub received : Input → State → ℕ
  received (chunk b) s = if is_running s.phase then weigh b else 0
  received _ s = 0

  weigh_all-pick :
      (i : ℕ) (xs : List Bytes) (y : Bytes) (ys : List Bytes)
      → pick i xs ≡ some (y, ys)
      → weigh_all xs ≡ weigh y + weigh_all ys
  unfolding weigh_all pick
  weigh_all-pick i [] y ys e = cc
  weigh_all-pick zero (x ∷ xs) y ys e = ground arith
  weigh_all-pick (suc i) (x ∷ xs) y ys e =
      let (zs, picked, rest) = pick-suc x y ys (pick i xs) e in
      rw rest (omega (arith, weigh_all-pick i xs y zs picked))

  -- A case balances if what it receives and what was held is delivered, lost or held.
  abbrev Balances : ℕ → State → State × List Output → Type 0
  Balances n s r = n + held s ≡ delivered r.1 + (lost r.1 + held r.0)

  module _ (conf : Conf) where
    failed_flush-Balances :
        (o : Option ℕ) (payload : Bytes) (rest : List Bytes) (s : State)
        → dropped_bytes conf.buffer_size payload ≡ o
        → s.phase ≡ running
        → IsFramed payload
        → weigh_all s.flights ≡ weigh payload + weigh_all rest
        → Balances 0 s (failed_flush o payload rest s)
    unfolding failed_flush on_response held delivered lost signal_if_set
    failed_flush-Balances none payload rest s e run hp hr = ground arith
    failed_flush-Balances (some n) payload rest s e run hp hr =
        let (hf, hd) = dropped_bytes-IsFramed conf.buffer_size payload n e hp in
        let split : weigh payload ≡ weigh (take n payload) + weigh (drop n payload) =
          ap weigh (sym (take-append-drop n payload))
          ∙ weigh-append (take n payload) (drop n payload) hf in
        ground (arith, weigh-append (drop n payload) s.buf hd)

    finish_flush-Balances :
        (ok : Bool) (payload : Bytes) (rest : List Bytes) (s : State)
        → s.phase ≡ running
        → IsFramed payload
        → weigh_all s.flights ≡ weigh payload + weigh_all rest
        → Balances 0 s (finish_flush conf ok payload rest s)
    unfolding finish_flush
    finish_flush-Balances true payload rest s run hp hr =
        unfold on_response held delivered lost signal_if_set in ground arith
    finish_flush-Balances false payload rest s run hp hr =
        failed_flush-Balances _ payload rest s refl run hp hr

    on_flush_resp-Balances :
        (i : ℕ) (ok : Bool) (s : State)
        → s.phase ≡ running
        → IsWhole s
        → Balances 0 s (on_flush_resp conf i ok s)
    unfolding on_flush_resp
    on_flush_resp-Balances i ok s run h = elim (Option-cases (pick i s.flights)) [
      | inl e ↦ rw (e, on_flush_resp) (unfold delivered lost in omega arith)
      | inr ((payload, rest), e) ↦
          let (whole, others) = pick-All i s.flights payload rest h.flights e in
          rw (e, on_flush_resp)
            (finish_flush-Balances ok payload rest s run whole
              (weigh_all-pick i s.flights payload rest e))
    ]

    on_input-Balances :
        (i : Input) (s : State)
        → s.phase ≡ running
        → IsFramedInput i
        → IsWhole s
        → Balances (received i s) s (on_input conf i s)
    unfolding on_input held delivered lost received push_buffer signal_if_set
    on_input-Balances (chunk b) s run hb h = ground (arith, weigh-append s.buf b h.buf)
    on_input-Balances (runtime_done ok) s run hb h =
        unfold on_runtime_done in ground (arith, weigh-nil, weigh_all-snoc s.flights s.buf)
    on_input-Balances expire s run hb h = unfold on_expire in ground arith
    on_input-Balances (ctx_done ok) s run hb h = unfold on_ctx_done in ground (arith, weigh-nil)
    on_input-Balances (invoke n) s run hb h =
        unfold on_invoke in ground (arith, weigh-nil, weigh_all-snoc s.flights s.buf)
    on_input-Balances (flush_resp i ok) s run hb h = on_flush_resp-Balances i ok s run h
    on_input-Balances (stop ok) s run hb h = unfold on_stop in ground (arith, weigh-nil)
    on_input-Balances (force_flush ok) s run hb h =
        unfold on_force_flush in ground (arith, weigh-nil)

    received_ended : (i : Input) (s : State) → is_running s.phase ≡ false → received i s ≡ 0
    unfolding received
    received_ended (chunk b) s e = ground arith
    received_ended _ s e = refl

    step-Balances :
        (i : Input) (s : State)
        → IsFramedInput i
        → IsWhole s
        → Balances (received i s) s (step conf i s)
    unfolding step
    step-Balances i s hb h =
        if_either (λ (r : State × List Output). Balances (received i s) s r) (is_running s.phase)
          (on_input conf i s) (s, []) (λ e. on_input-Balances i s (ground arith) hb h)
          (λ e. unfold delivered lost in omega (arith, received_ended i s e))

    -- What a run receives while the loop goes on.
    unfoldable pub received_all : List Input → State → ℕ
    received_all [] s = 0
    received_all (i ∷ is) s = received i s + received_all is (step conf i s).0

    run-IsWhole :
        (is : List Input) (s : State) → All IsFramedInput is → IsWhole s → IsWhole (run conf is s).0
    unfolding run
    run-IsWhole [] s hb h = h
    run-IsWhole (i ∷ is) s (hi, his) h =
        run-IsWhole is (step conf i s).0 his (step-IsWhole conf i s hi h)

    run-Balances :
        (is : List Input) (s : State)
        → All IsFramedInput is
        → IsWhole s
        → Balances (received_all is s) s (run conf is s)
    unfolding run received_all
    run-Balances [] s hb h = unfold delivered lost in omega arith
    run-Balances (i ∷ is) s (hi, his) h =
        let (s', sent) = step conf i s in
        let (s'', more) = run conf is s' in
        omega (
          arith,
          step-Balances i s hi h,
          run-Balances is s' his (step-IsWhole conf i s hi h),
          delivered-append sent more,
          lost-append sent more,
        )

    -- From its start and whatever happens, as long as every payload that arrives is framed: the
    -- weight of the records received is that of the records delivered, lost with a failed push or a
    -- drop of old logs, and still held; and what is held is framed. The weight is arbitrary, so this
    -- counts every record by itself.
    pub records_conserved :
        (is : List Input)
        → All IsFramedInput is
        → let r = run conf is start in
          (received_all is start ≡ delivered r.1 + (lost r.1 + held r.0)) × IsWhole r.0
    records_conserved is hb =
        let whole : IsWhole start = record { buf = unfold framed_from in refl; flights = tt } in
        (omega (arith, run-Balances is start hb whole, held_start), run-IsWhole is start hb whole)
