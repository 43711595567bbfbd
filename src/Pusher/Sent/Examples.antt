-- ===== src/Pusher/Sent/Examples.antt =====
-- A push whose first attempt is refused and whose second one is accepted.
use edgedelta_lambda_extensi.Common.{
  ℕ, zero, suc, ◌≡◌, ◌<◌, ◌↔◌, refl, none, [], arith, pos, ok, err, Result-cases, inl, inr,
}
use edgedelta_lambda_extensi.Text.Bytes.{codes}
use edgedelta_lambda_extensi.Lambda.Requests.{Response, Http}
use edgedelta_lambda_extensi.Pusher.Requests.{Pushed, Retry, Target, http_target, push}
use edgedelta_lambda_extensi.Pusher.Sent.{IsRetry, AttemptDelivers, push_lem}

abbrev status : ℕ → Response
status code = record { status_code = code; status = []; header = λ name. []; body = ok (codes "x") }

abbrev network : ℕ → Http
network zero = record { reject_url = λ u. none; exchange = λ r. ok (status 503) }
network (suc n) = record { reject_url = λ u. none; exchange = λ r. ok (status 202) }

-- A library that tries twice.
abbrev second : Pushed → Pushed → Pushed
second (ok u) r = ok u
second (err e) r = r

abbrev twice : Retry
twice b f = second (f 0) (f 1)

twice-IsRetry : IsRetry twice
twice-IsRetry b f = elim (Result-cases (f 0)) [
  | inl (e, h) ↦ (1, rw h refl, λ n less. let z : n ≡ 0 = omega arith in (e, rw z h))
  | inr (u, h) ↦ (0, rw h refl, λ n less. absurd (omega arith))
]

abbrev target : Target
target = http_target network (codes "https://example.com")

push_lem_example :
    (last : ℕ) × ((push twice target (pos 100) (codes "a\n") (pos 5_000) ≡ ok tt)
      ↔ AttemptDelivers target (codes "a\n") last)
    × ((n : ℕ) → n < last → ¬ AttemptDelivers target (codes "a\n") n)
push_lem_example = push_lem twice target (pos 100) (codes "a\n") (pos 5_000) twice-IsRetry
