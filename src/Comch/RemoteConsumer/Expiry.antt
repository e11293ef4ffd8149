-- ===== src/Comch/RemoteConsumer/Expiry.antt =====
-- What a producer is told of a remote consumer before and after its end.
use shoc.Base.{
  ℕ, ◌<◌, ◌≡◌, ◌≢◌, refl, true, false, none, some, List, [], ◌∷◌, arith, ==_refl, lookup,
  lookup-insert, lookup-erase, Option-cases, inl, inr,
}
use shoc.Doca.{not_connected}
use shoc.Comch.RemoteConsumer.{
  ConsumerQueues, new, accept, supply, mark_expired, expire, disconnect, refused, offloaded_to,
  send,
}

pub data Op : Type 0 where
  accepts disconnects : Op
  supplies expires : ℕ → Op

unfoldable pub step : Op → ConsumerQueues → ConsumerQueues
unfolding accept supply expire disconnect
step accepts q = accept q
step disconnects q = disconnect q
step (supplies id) q = supply id q
step (expires id) q = expire id q

unfoldable pub run : List Op → ConsumerQueues → ConsumerQueues
unfolding step
run [] q = q
run (x ∷ rest) q = run rest (step x q)

-- What the index holds is live, has the id under which it stands, and was made before.
record Live (q : ConsumerQueues) : Type 0 where
  entries :
      (id a : ℕ)
      → lookup id q.index ≡ some a
      → ((q.objects a).id ≡ id) × ((q.objects a).is_expired ≡ false) × (a < q.next_object)

supply-Live : (id : ℕ) (q : ConsumerQueues) → Live q → Live (supply id q)
unfolding supply
supply-Live id q v = record {
  entries = λ j a h. ground (arith, lookup-insert id j q.next_object q.index, v.entries j a);
}

expire-Live : (id : ℕ) (q : ConsumerQueues) → Live q → Live (expire id q)
unfolding expire mark_expired
expire-Live id q v = elim (Option-cases (lookup id q.index)) [
  | inl e ↦ rw (e, expire) (record { entries = v.entries })
  | inr (a, e) ↦
      rw (e, expire)
        (record {
          entries =
              λ j b h. ground (arith, lookup-erase id j q.index, v.entries j b, v.entries id a, e);
        })
]

step-Live : (x : Op) (q : ConsumerQueues) → Live q → Live (step x q)
unfolding step accept disconnect
step-Live accepts q v = record { entries = v.entries }
step-Live disconnects q v = record { entries = v.entries }
step-Live (supplies id) q v = supply-Live id q v
step-Live (expires id) q v = expire-Live id q v

steps-Live : (l : List Op) (q : ConsumerQueues) → Live q → Live (run l q)
unfolding run
steps-Live [] q v = v
steps-Live (x ∷ rest) q v = steps-Live rest _ (step-Live x q v)

new-Live : Live new
unfolding new
new-Live = record { entries = λ id a h. cc }

-- The object at `a` was made before, and is expired.
record Gone (a : ℕ) (q : ConsumerQueues) : Type 0 where
  dead : (q.objects a).is_expired ≡ true
  made : a < q.next_object

expire-Gone : (id a : ℕ) (q : ConsumerQueues) → Gone a q → Gone a (expire id q)
unfolding expire mark_expired
expire-Gone id a q g = elim (Option-cases (lookup id q.index)) [
  | inl e ↦ rw (e, expire) (record { dead = g.dead; made = g.made })
  | inr (b, e) ↦ rw (e, expire) (record { dead = ground (arith, g.dead); made = g.made })
]

step-Gone : (x : Op) (a : ℕ) (q : ConsumerQueues) → Gone a q → Gone a (step x q)
unfolding step accept disconnect supply
step-Gone accepts a q g = record { dead = g.dead; made = g.made }
step-Gone disconnects a q g = record { dead = g.dead; made = g.made }
step-Gone (supplies id) a q g = record {
  dead = ground (arith, g.dead, g.made);
  made = omega (arith, g.made);
}
step-Gone (expires id) a q g = expire-Gone id a q g

run-Gone : (l : List Op) (a : ℕ) (q : ConsumerQueues) → Gone a q → Gone a (run l q)
unfolding run
run-Gone [] a q g = g
run-Gone (x ∷ rest) a q g = run-Gone rest a _ (step-Gone x a q g)

send-Gone : (a : ℕ) (q : ConsumerQueues) → Gone a q → send q a ≡ refused not_connected
unfolding send
send-Gone a q g = rw g.dead refl

expired-Gone :
    (id a : ℕ) (q : ConsumerQueues)
    → lookup id q.index ≡ some a
    → a < q.next_object
    → Gone a (expire id q)
unfolding expire mark_expired
expired-Gone id a q h l = rw (h, expire) (record { dead = rw (==_refl a) refl; made = l })

-- After any sequence of operations on new queues, a send to a remote consumer that the index knows
-- is offloaded to its id. When that consumer expires, the index forgets the id, a send to any other
-- object has the outcome that it had before, and a send to the same object is refused, then and after
-- any operations that follow.
pub expire_refuses :
    (l : List Op) (id a : ℕ) (later : List Op)
    → lookup id (run l new).index ≡ some a
    → (send (run l new) a ≡ offloaded_to id)
      × (send (run later (expire id (run l new))) a ≡ refused not_connected)
      × (lookup id (expire id (run l new)).index ≡ none)
      × ((b : ℕ) → b ≢ a → send (expire id (run l new)) b ≡ send (run l new) b)
unfolding send expire mark_expired
expire_refuses l id a later h =
    let q = run l new in
    let live = (steps-Live l new new-Live).entries id a h in
    let refused_later =
      send-Gone a _ (run-Gone later a (expire id q) (expired-Gone id a q h live.2)) in
    (
      rw (live.1, live.0) refl,
      refused_later,
      rw (h, expire) (ground (arith, lookup-erase id id q.index)),
      λ b ne. rw (h, expire) (ground arith),
    )
