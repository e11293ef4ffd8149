-- ===== src/Comch/RemoteConsumer.antt =====
-- Remote consumers, as the side that produces sees them (shoc/comch/producer.hpp,
-- shoc/comch/producer.cpp). The objects live on a heap, since fibers share them with the index.
pub mod Expiry
mod Tests
use shoc.Base.{
  ℕ, suc, Bool, true, false, Option, none, some, List, [], ◌∷◌, ◌==◌, if◌then◌else◌, lookup, insert,
  erase,
}
use shoc.Doca.{DocaError, not_connected}
use shoc.AccepterQueues
use shoc.AccepterQueues.{Queues, update}

pub record RemoteConsumer : Type 0 where
  pub id : ℕ
  pub is_expired : Bool

-- `remote_consumer_queues`: what is queued is the address of a remote consumer.
pub record ConsumerQueues : Type 0 where
  pub queues : Queues ℕ ℕ
  pub index : List (ℕ × ℕ)
  pub objects : ℕ → RemoteConsumer
  pub next_object : ℕ
  pub warnings : ℕ

abbrev pub shared : ℕ → ℕ
shared p = p

unfoldable pub new : ConsumerQueues
new = record {
  queues = AccepterQueues.new;
  index = [];
  objects = λ _. record { id = 0; is_expired = true };
  next_object = 0;
  warnings = 0;
}

unfoldable pub accept : ConsumerQueues → ConsumerQueues
accept q = record q { queues = AccepterQueues.accept shared q.queues }

unfoldable pub supply : ℕ → ConsumerQueues → ConsumerQueues
supply id q = record q {
  queues = AccepterQueues.supply shared q.next_object q.queues;
  index = insert id q.next_object q.index;
  objects = update q.objects q.next_object (record { id = id; is_expired = false });
  next_object = suc q.next_object;
}

-- `remote_consumer::expire`
pub mark_expired : RemoteConsumer → RemoteConsumer
mark_expired c = record c { is_expired = true }

unfoldable pub expire : ℕ → ConsumerQueues → ConsumerQueues
unfolding mark_expired
expire id q = elim (lookup id q.index) [
  | none ↦ record q { warnings = suc q.warnings }
  | some a ↦ record q {
    objects = update q.objects a (mark_expired (q.objects a));
    index = erase id q.index;
  }
]

unfoldable pub disconnect : ConsumerQueues → ConsumerQueues
disconnect q = record q { queues = AccepterQueues.close q.queues }

-- `producer::send`: the status that is known at once, or the consumer that the task goes to.
pub data Sent : Type 0 where
  refused : DocaError → Sent
  offloaded_to : ℕ → Sent

unfoldable pub send : ConsumerQueues → ℕ → Sent
send q destination =
    if (q.objects destination).is_expired
    then refused not_connected
    else offloaded_to (q.objects destination).id
