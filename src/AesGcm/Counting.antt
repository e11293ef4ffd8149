-- ===== src/AesGcm/Counting.antt =====
-- The number of loaded keys that an AES-GCM context counts (shoc/aes_gcm.cpp).
pub mod Keys
pub mod Stopping
pub mod Loading
use shoc.Base.{
  ℕ, zero, suc, ◌+◌, ◌/◌, ◌<◌, ◌≡◌, refl, sym, ap, Bool, true, false, ◌&&◌, Option, none, some,
  List, [], ◌∷◌, ◌++◌, arith, ltb, ◌==◌, if◌then◌else◌, is_empty, length, set, All,
}
use shoc.Doca.{DocaError, invalid_value}
use shoc.Error.{Outcome, ok, throws, terminates, undefined, ◌>>◌, enforce, enforce_success}
use shoc.Context.Registry.{StopAnswer, at_once, in_time, refused}
use shoc.AesGcm.{
  KeyType, aes_gcm_key_128, aes_gcm_key_256, other_key_type, expected_key_size, Key, no_key,
  Context, new_context, create_key, keep_key, load_key, stop_answered, do_stop_if_able,
  signal_key_destroyed, stop, at, clear, clear_handle, drop_handle, move_assign, move_construct,
}
use shoc.AesGcm.Counting.Keys.{
  live-set, live-set_none, live-append, leaked-append, leaked-drop_handle, at-set_other, has_key,
  KnowsParent, no_key-KnowsParent, at-set_all, at-append_all,
}
use shoc.AesGcm.Counting.Stopping.{Inv, if-Inv, do_stop_if_able-Inv, signal_key_destroyed-Inv}
use shoc.AesGcm.Counting.Loading.{load_key-Inv}

-- What happens to the context and its keys. A key's destructor is `clear`.
pub data Event : Type 0 where
  loads : ℕ → KeyType → DocaError → ℕ → Event
  moves : ℕ → Event
  assigns : ℕ → ℕ → Event
  clears : StopAnswer → ℕ → Event
  stops : StopAnswer → Event
  becomes_idle : Event

unfoldable pub step : Event → Context → Context
unfolding load_key move_construct move_assign clear stop
step (loads size type answer handle) c = load_key size type answer handle c
step (moves j) c = move_construct j c
step (assigns i j) c = move_assign i j c
step (clears answer i) c = clear answer i c
step (stops answer) c = stop answer c
step becomes_idle c = record c { has_handle = false }

unfoldable pub run : List Event → Context → Context
unfolding step
run [] c = c
run (e ∷ es) c = run es (step e c)

new_context-Inv : Inv new_context
unfolding new_context
new_context-Inv = record {
  counted = refl;
  parents = λ i. no_key-KnowsParent;
  assertions_hold = refl;
  stopped_without_keys = tt;
  stop_is_asked = λ r l h. cc;
}

move_construct-Inv : (j : ℕ) (c : Context) → Inv c → Inv (move_construct j c)
unfolding move_construct
move_construct-Inv j c v = record {
  counted = omega (
    arith,
    v.counted,
    live-append (set c.keys j no_key) (at j c.keys ∷ []),
    live-set_none j c.keys,
  );
  parents =
      at-append_all KnowsParent no_key-KnowsParent (set c.keys j no_key) (at j c.keys) (v.parents j)
        (at-set_all KnowsParent no_key-KnowsParent j c.keys no_key no_key-KnowsParent v.parents);
  assertions_hold = v.assertions_hold;
  stopped_without_keys = v.stopped_without_keys;
  stop_is_asked = v.stop_is_asked;
}

move_assign-Inv : (i j : ℕ) (c : Context) → Inv c → Inv (move_assign i j c)
unfolding move_assign
move_assign-Inv i j c v =
    if-Inv (ltb i (length c.keys) && ltb j (length c.keys)) _ _
      (λ e.
        if-Inv (i == j) _ _ (λ s. v)
          (λ s. record {
            counted = omega (
              arith,
              v.counted,
              live-set i c.keys (at j c.keys) (ground arith),
              live-set_none j (set c.keys i (at j c.keys)),
              ap (λ (k : Key). has_key k.handle) (at-set_other i j c.keys (at j c.keys) s),
              leaked-drop_handle (at i c.keys).handle c.destroyed,
            );
            parents =
                at-set_all KnowsParent no_key-KnowsParent j (set c.keys i (at j c.keys)) no_key
                  no_key-KnowsParent
                  (at-set_all KnowsParent no_key-KnowsParent i c.keys (at j c.keys) (v.parents j)
                    v.parents);
            assertions_hold = v.assertions_hold;
            stopped_without_keys = v.stopped_without_keys;
            stop_is_asked = v.stop_is_asked;
          }))
      (λ e. v)

clear-Inv : (answer : StopAnswer) (i : ℕ) (c : Context) → Inv c → Inv (clear answer i c)
unfolding clear
clear-Inv answer i c v = go (at i c.keys).handle refl
  where
    go : (o : Option ℕ) → (at i c.keys).handle ≡ o → Inv (clear_handle answer i (at i c.keys) o c)
    go none e = v
    go (some h) e =
        signal_key_destroyed-Inv answer
          (record c {
            keys = set c.keys i no_key;
            destroyed = c.destroyed ++ (h, true) ∷ [];
            failed_assertions =
                if (at i c.keys).parent then c.failed_assertions else suc c.failed_assertions;
          })
          (omega (
            arith,
            v.counted,
            live-set_none i c.keys,
            ap has_key e,
            leaked-append c.destroyed ((h, true) ∷ []),
          ))
          (at-set_all KnowsParent no_key-KnowsParent i c.keys no_key no_key-KnowsParent v.parents)
          (ground (arith, v.parents i h e, v.assertions_hold)) v.stopped_without_keys

stop-Inv : (answer : StopAnswer) (c : Context) → Inv c → Inv (stop answer c)
unfolding stop
stop-Inv answer c v = do_stop_if_able-Inv answer _ (record {
  counted = v.counted;
  parents = v.parents;
  assertions_hold = v.assertions_hold;
  stopped_without_keys = v.stopped_without_keys;
})

pub step-Inv : (e : Event) (c : Context) → Inv c → Inv (step e c)
unfolding step
step-Inv (loads size type answer handle) c v = load_key-Inv size type answer handle c v
step-Inv (moves j) c v = move_construct-Inv j c v
step-Inv (assigns i j) c v = move_assign-Inv i j c v
step-Inv (clears answer i) c v = clear-Inv answer i c v
step-Inv (stops answer) c v = stop-Inv answer c v
step-Inv becomes_idle c v = record {
  counted = v.counted;
  parents = v.parents;
  assertions_hold = v.assertions_hold;
  stopped_without_keys = v.stopped_without_keys;
  stop_is_asked = λ r l h. cc;
}

pub history-Inv : (es : List Event) (c : Context) → Inv c → Inv (run es c)
unfolding run
history-Inv [] c v = v
history-Inv (e ∷ es) c v = history-Inv es (step e c) (step-Inv e c v)

-- Whatever is done to a new context and its keys: it counts the keys that are held by key objects and
-- those that were overwritten by move assignment; the assertions on a key that is destroyed hold; DOCA
-- is asked to stop the context only when the count is zero; and once a stop was requested and the
-- count is zero, DOCA has been asked, unless the context is idle.
pub run-new_context-Inv : (es : List Event) → Inv (run es new_context)
run-new_context-Inv es = history-Inv es new_context new_context-Inv
