-- ===== src/Extension/Started.antt =====
-- What `startExtension` of main.go reports, and what holds when it succeeds.
use edgedelta_lambda_extensi.Common.{
  Option-cases, inl, inr, map_option, ℕ, ◌+◌, ◌≡◌, refl, Bool, true, false, Option, none, some,
  List, [], ◌∷◌, ◌++◌, arith, Result, ok, err, if◌then◌else◌, if_either, ◌>>=◌,
}
use edgedelta_lambda_extensi.Text.Bytes.{Bytes, bytes_eq}
use edgedelta_lambda_extensi.Text.Table.{Table, insert, lookup, lookup-insert}
use edgedelta_lambda_extensi.Cfg.Types.{Config, loaded, Outcome as Loaded}
use edgedelta_lambda_extensi.Cfg.Load.{get_config_and_validate}
use edgedelta_lambda_extensi.Cfg.Accepted.{IsValidEnv, accepted_iff}
use edgedelta_lambda_extensi.Extension.Types.{
  RegisterResponse, FunctionConfiguration, FunctionOutput, Replies, Action, init_error,
  start_worker, Ending, started, failed, Abort, refused, crash,
}
use edgedelta_lambda_extensi.Extension.Start.{
  prefix_tags, describe, forward, accept, identify, complete, prepare, subscribe_worker, begin,
  after_register, start_extension,
}

-- How many errors are reported.
unfoldable pub reported : List Action → ℕ
reported [] = 0
reported (init_error id type error ∷ acts) = 1 + reported acts
reported (_ ∷ acts) = reported acts

abbrev pub is_failed : Ending → Bool
is_failed failed = true
is_failed _ = false

module _ (r : Replies) (id : Bytes) where
  begin-reported :
      (c : Result Abort Config)
      → reported (begin r id c).1 ≡ (if is_failed (begin r id c).0 then 1 else 0)
  unfolding begin subscribe_worker reported
  begin-reported (ok c) = ground arith
  begin-reported (err (refused type error)) = refl
  begin-reported (err crash) = refl

  begin-started :
      (p : Result Abort Config) (c : Config) (i : Bytes)
      → (begin r id p).0 ≡ started c i
      → (p ≡ ok c) × ((begin r id p).1 ≡ start_worker c i ∷ [])
  unfolding begin subscribe_worker
  begin-started (ok d) c i h = ground arith
  begin-started (err (refused type error)) c i h = cc
  begin-started (err crash) c i h = cc

after_register-reported :
    (env : Bytes → Bytes) (r : Replies) (x : Result Bytes (Bytes × RegisterResponse))
    → let s = after_register env r x in reported s.1 ≡ (if is_failed s.0 then 1 else 0)
unfolding after_register reported
after_register-reported env r (ok (id, response)) = begin-reported r id (prepare env r response)
after_register-reported env r (err x) = refl

-- The start reports exactly one error to the Lambda API if it fails, and none if it succeeds or
-- panics.
pub start_reports :
    (env : Bytes → Bytes) (r : Replies)
    → let s = start_extension env r in reported s.1 ≡ (if is_failed s.0 then 1 else 0)
unfolding start_extension
start_reports env r = after_register-reported env r r.register

pub accept-ok : (o : Loaded) (c : Config) → accept o ≡ ok c → o ≡ loaded c []
unfolding accept
accept-ok (loaded d []) c h = ground arith
accept-ok (loaded d (e ∷ es)) c h = cc
accept-ok _ c h = cc

bytes_eq-append : (b j k : Bytes) → bytes_eq (b ++ j) (b ++ k) ≡ bytes_eq j k
unfolding bytes_eq
bytes_eq-append [] j k = refl
bytes_eq-append (c ∷ b) j k = ground (arith, bytes_eq-append b j k)

-- A tag is found under its key with the prefix.
lookup-prefix_tags :
    (before k : Bytes) (tags : Table (Option Bytes)) (made : Table Bytes)
    → prefix_tags before tags ≡ some made
    → lookup k tags ≡ map_option some (lookup (before ++ k) made)
unfolding prefix_tags lookup
lookup-prefix_tags before k [] made h = ground arith
lookup-prefix_tags before k ((j, none) ∷ tags) made h = cc
lookup-prefix_tags before k ((j, some v) ∷ tags) made h =
    elim (Option-cases (prefix_tags before tags)) [
      | inl e ↦ absurd (ground arith)
      | inr (m, e) ↦
          let same : insert (before ++ j) v m ≡ made = ground arith in
          let rest = lookup-prefix_tags before k tags m e in
          rw (← same, lookup-insert, bytes_eq-append, rest) (ground arith)
    ]

-- What `describe` leaves alone.
describe-keeps :
    (f : Option FunctionConfiguration) (c d : Config)
    → describe f c ≡ some d
    → (d.tags ≡ c.tags) × (d.tag_prefix ≡ c.tag_prefix) × (d.function_arn ≡ c.function_arn)
unfolding describe
describe-keeps none c d h = ground arith
describe-keeps (some f) c d h = ground arith

forward-arn : (r : Replies) (c d : Config) → forward r c ≡ ok d → d.function_arn ≡ c.function_arn
unfolding forward
forward-arn r c d h = grind (arith, describe-keeps)

forward-tags :
    (r : Replies) (c d : Config) (f : FunctionOutput)
    → r.get_function c.function_arn ≡ ok (some f)
    → forward r c ≡ ok d
    → prefix_tags d.tag_prefix f.tags ≡ some d.tags
unfolding forward
forward-tags r c d f found h = elim (Option-cases (prefix_tags c.tag_prefix f.tags)) [
  | inl e ↦ absurd (ground arith)
  | inr (m, e) ↦ ground (arith, describe-keeps f.configuration (record c { tags = m }) d)
]

bind-ok :
    {E A B : Type 0} (m : Result E A) (f : A → Result E B) (b : B)
    → (m >>= f) ≡ ok b
    → (a : A) × (m ≡ ok a) × (f a ≡ ok b)
bind-ok (ok a) f b h = (a, refl, h)
bind-ok (err e) f b h = cc

complete-tags :
    (r : Replies) (c d : Config) (f : FunctionOutput)
    → complete r c ≡ ok d
    → d.forward_tags ≡ true
    → r.get_function d.function_arn ≡ ok (some f)
    → prefix_tags d.tag_prefix f.tags ≡ some d.tags
unfolding complete
complete-tags r c d f h on found =
    if_either
      (λ (x : Result Abort Config). x ≡ ok d → prefix_tags d.tag_prefix f.tags ≡ some d.tags)
      c.forward_tags (forward r c) (ok c)
      (λ _ e. forward-tags r c d f (rw (← forward-arn r c d e) found) e) (λ off e. ground arith) h

module _ (env : Bytes → Bytes) (r : Replies) where
  pub begin-config :
      (x : Result Bytes (Bytes × RegisterResponse)) (c : Config) (id : Bytes)
      → (after_register env r x).0 ≡ started c id
      → ((d : Config) × (response : RegisterResponse) × (get_config_and_validate env ≡ loaded d [])
          × (complete r (identify response d) ≡ ok c))
        × ((after_register env r x).1 ≡ start_worker c id ∷ [])
  unfolding after_register prepare
  begin-config (err e) c id h = cc
  begin-config (ok (i, response)) c id h =
      let (made, acts) = begin-started r i (prepare env r response) c id h in
      let (d, accepted, completed) = bind-ok (accept (get_config_and_validate env)) _ c made in
      ((d, response, accept-ok (get_config_and_validate env) d accepted, completed), acts)

  -- An extension that starts has a valid environment, has started its worker with the configuration it
  -- ends with, and has done nothing else.
  pub start_extension_lem :
      (c : Config) (id : Bytes)
      → (start_extension env r).0 ≡ started c id
      → IsValidEnv env × ((start_extension env r).1 ≡ start_worker c id ∷ [])
  unfolding start_extension
  start_extension_lem c id h =
      let ((d, response, valid, _), acts) = begin-config r.register c id h in
      ((accepted_iff env d [] valid).0 refl, acts)

  -- An extension that starts and forwards the tags of its function knows each tag of the function under
  -- its key with the configured prefix, and no other key with that prefix.
  pub started_tags :
      (c : Config) (id k : Bytes) (f : FunctionOutput)
      → (start_extension env r).0 ≡ started c id
      → c.forward_tags ≡ true
      → r.get_function c.function_arn ≡ ok (some f)
      → lookup k f.tags ≡ map_option some (lookup (c.tag_prefix ++ k) c.tags)
  unfolding start_extension
  started_tags c id k f h on found =
      let ((d, response, _, completed), _) = begin-config r.register c id h in
      lookup-prefix_tags c.tag_prefix k f.tags c.tags
        (complete-tags r (identify response d) c f completed on found)
