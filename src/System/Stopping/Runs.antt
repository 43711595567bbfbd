-- ===== src/System/Stopping/Runs.antt =====
-- What every move of a stop keeps, by what the parts, the handlers and the stop itself keep.
use edgedelta_lambda_extensi.Common.{List, [], ◌∷◌, ◌≡◌, All, Option, refl, ◌++◌, if_either}
use edgedelta_lambda_extensi.Host.{Host}
use edgedelta_lambda_extensi.Lambda.Events.{LambdaEvent}
use edgedelta_lambda_extensi.Processor.Loop.{Processor}
use edgedelta_lambda_extensi.Pusher.Loop.{Conf, pick}
use edgedelta_lambda_extensi.System.Steps.{System, Move, call}
use edgedelta_lambda_extensi.System.Stopping.{
  Stopper, Halting, StopMove, inner, post, hand_over, call_stop, wake, server_down,
  enter_processor_stop, processor_down, enter_pusher_stop, pusher_down, inner_step, send_batch,
  stop_step, move, moves,
}

-- Not the start of another invocation: the goroutine that handles the invocations is in `Stop`.
abbrev pub NoCall : StopMove → Type 0
NoCall (inner (call n id)) = ⊥
NoCall _ = Unit

module _ (host : Host) (p : Processor) (conf : Conf) (I : Stopper → System → Type 0)
    (inner-keeps : (m : Move) (t : Stopper) (s : System)
      → NoCall (inner m)
      → I t s
      → I t (inner_step host p conf m s))
    (send-keeps : (o : Option (List LambdaEvent × List (List LambdaEvent))) (h : Halting)
      → I h.stopper h.system
      → I (send_batch host p conf o h).stopper (send_batch host p conf o h).system)
    (stop-keeps : (x : StopMove) (t : Stopper) (h : Halting)
      → h.stopper ≡ t
      → I t h.system
      → I (stop_step host p conf x t h).stopper (stop_step host p conf x t h).system) where
  pub move-keeps :
      (x : StopMove) (h : Halting)
      → NoCall x
      → I h.stopper h.system
      → I (move host p conf x h).stopper (move host p conf x h).system
  unfolding move
  move-keeps (inner m) h q c = inner-keeps m h.stopper h.system q c
  move-keeps (post es) h q c =
      if_either (λ (g : Halting). I g.stopper g.system) h.accepting
        (record h { posting = h.posting ++ es ∷ [] }) h (λ _. c) (λ _. c)
  move-keeps (hand_over i) h q c = send-keeps (pick i h.posting) h c
  move-keeps call_stop h q c = stop-keeps call_stop h.stopper h refl c
  move-keeps wake h q c = stop-keeps wake h.stopper h refl c
  move-keeps (server_down ok) h q c = stop-keeps (server_down ok) h.stopper h refl c
  move-keeps enter_processor_stop h q c = stop-keeps enter_processor_stop h.stopper h refl c
  move-keeps processor_down h q c = stop-keeps processor_down h.stopper h refl c
  move-keeps (enter_pusher_stop ok) h q c = stop-keeps (enter_pusher_stop ok) h.stopper h refl c
  move-keeps pusher_down h q c = stop-keeps pusher_down h.stopper h refl c

  pub moves-keep :
      (xs : List StopMove) (h : Halting)
      → All NoCall xs
      → I h.stopper h.system
      → I (moves host p conf xs h).stopper (moves host p conf xs h).system
  unfolding moves
  moves-keep [] h q c = c
  moves-keep (x ∷ xs) h (q, qs) c = moves-keep xs (move host p conf x h) qs (move-keeps x h q c)
