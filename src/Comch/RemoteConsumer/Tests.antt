-- ===== src/Comch/RemoteConsumer/Tests.antt =====
-- Runs of the queues of remote consumers.
use shoc.Base.{ℕ, ◌≡◌, ◌≢◌, refl, none, List, [], ◌∷◌, lookup}
use shoc.Doca.{not_connected}
use shoc.Comch.RemoteConsumer.{new, expire, refused, offloaded_to, send}
use shoc.Comch.RemoteConsumer.Expiry.{Op, supplies, accepts, run, expire_refuses}

abbrev two_consumers : List Op
two_consumers = supplies 4 ∷ accepts ∷ supplies 9 ∷ []

expire_refuses_example :
    (send (run two_consumers new) 1 ≡ offloaded_to 9)
    × (send (run (supplies 9 ∷ []) (expire 9 (run two_consumers new))) 1 ≡ refused not_connected)
    × (lookup 9 (expire 9 (run two_consumers new)).index ≡ none)
    × ((b : ℕ) → b ≢ 1 → send (expire 9 (run two_consumers new)) b ≡ send (run two_consumers new) b)
unfolding run new
expire_refuses_example = expire_refuses two_consumers 9 1 (supplies 9 ∷ []) refl
