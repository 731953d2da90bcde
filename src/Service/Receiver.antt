-- ===== src/Service/Receiver.antt =====
-- base/microservice/internal/service/service.go: the handler that registerReceiver makes.
use caaspay_core.Prelude.{ℕ, ◌-◌, Option, none, some, Text, Bytes, codes, Error, Result, ok, err}
use caaspay_core.Message.{TransportMessage}
use caaspay_core.Transport.{Env, History, clock, increment, observe, track, invoke}
use caaspay_core.Transport.Act.{Act, pure, ask, tell, ◌>>=◌, ◌>>◌}
use caaspay_core.Service.{stage_tags}
use caaspay_core.Service.Rpc.{stream_tags, refused_by}

pub record ReceiverMethod (A : Type 0) : Type 0 where
  pub unmarshal_args : Bytes → Result A
  pub validator : Option (A → Option Error)
  pub call : History → A → Option Error

pub receiver_failed : (stream stage : Text) → Error → Act (Option Error)
receiver_failed stream stage x = do
  tell (increment (codes "receiver_errors") (stage_tags stream stage))
  pure (some x)

module _ {A : Type 0} (e : Env) (f : ReceiverMethod A) (stream : Text) where
  after_receive : ℕ → Option Error → Act (Option Error)
  after_receive start (some x) = receiver_failed stream (codes "handler") x
  after_receive start none = do
    tell (increment (codes "receiver_handled") (stream_tags stream))
    now ← ask e.now clock
    tell (observe (codes "receiver_duration") (now - start) (stream_tags stream))
    tell (track (codes "receiver_message_processed"))
    pure none

  after_receiver_check : TransportMessage → A → Option Error → Act (Option Error)
  after_receiver_check msg arg (some x) = receiver_failed stream (codes "validation") x
  after_receiver_check msg arg none = do
    start ← ask e.now clock
    failed ← ask (λ h. f.call h arg) (invoke stream msg.args)
    after_receive start failed

  after_receiver_decode : TransportMessage → Result A → Act (Option Error)
  after_receiver_decode msg (err x) = receiver_failed stream (codes "unmarshal_payload") x
  after_receiver_decode msg (ok arg) = after_receiver_check msg arg (refused_by f.validator arg)

  pub receiver_handler : TransportMessage → Act (Option Error)
  receiver_handler msg = after_receiver_decode msg (f.unmarshal_args msg.args)
