-- ===== src/AesGcm/Leak.antt =====
-- A key that is move-assigned over another one (shoc/aes_gcm.cpp).
use shoc.Base.{
  ℕ, suc, ◌-◌, ◌<◌, ◌≡◌, refl, ap, Bool, true, false, ◌&&◌, Option, none, some, List, [], ◌∷◌, ◌++◌,
  arith, ltb, ◌==◌, if◌then◌else◌, length, set, Bool-cases, inl, inr,
}
use shoc.Error.{Outcome, ok, throws, terminates, undefined}
use shoc.Context.Registry.{StopAnswer}
use shoc.AesGcm.{
  Key, no_key, Context, create_key, keep_key, load_key, do_stop_if_able, signal_key_destroyed, stop,
  at, clear, clear_handle, move_assign, move_construct,
}
use shoc.AesGcm.Counting.{
  Event, loads, moves, assigns, clears, stops, becomes_idle, step, run, step-Inv,
}
use shoc.AesGcm.Counting.Keys.{has_key, leaked, leaked-append, leaked-drop_handle, live-set_none}
use shoc.AesGcm.Counting.Stopping.{Inv}

-- A key was overwritten, and the calls of `doca_ctx_stop` are `asked`.
record Stuck (asked : List ℕ) (c : Context) : Type 0 where
  overwritten : 0 < leaked c.destroyed
  unasked : c.stops ≡ asked

do_stop_if_able-unable :
    (b : Bool) (answer : StopAnswer) (c : Context)
    → 0 < c.loaded_keys
    → (if b then do_stop_if_able answer c else c) ≡ c
unfolding do_stop_if_able
do_stop_if_able-unable true answer c h = ground arith
do_stop_if_able-unable false answer c h = refl

module _ {asked : List ℕ} where
  unable :
      (b : Bool) (answer : StopAnswer) (c : Context)
      → 0 < c.loaded_keys
      → Stuck asked c
      → Stuck asked (if b then do_stop_if_able answer c else c)
  unable b answer c h s = rw (do_stop_if_able-unable b answer c h) s

  keep_key-Stuck : (o : Outcome Key) (c : Context) → Stuck asked c → Stuck asked (keep_key o c)
  keep_key-Stuck (ok k) c s = record { overwritten = s.overwritten; unasked = s.unasked }
  keep_key-Stuck (throws e) c s = s
  keep_key-Stuck terminates c s = s
  keep_key-Stuck undefined c s = s

  move_assign-Stuck : (i j : ℕ) (c : Context) → Stuck asked c → Stuck asked (move_assign i j c)
  unfolding move_assign
  move_assign-Stuck i j c s = elim (Bool-cases (ltb i (length c.keys) && ltb j (length c.keys))) [
    | inr e ↦ rw e s
    | inl e ↦ elim (Bool-cases (i == j)) [
      | inl q ↦ rw (e, q) s
      | inr q ↦
          rw (e, q)
            (record {
              overwritten =
                  omega (arith, s.overwritten, leaked-drop_handle (at i c.keys).handle c.destroyed);
              unasked = s.unasked;
            })
    ]
  ]

  -- More than one key is counted.
  signal_key_destroyed-Stuck :
      (answer : StopAnswer) (c : Context)
      → 1 < c.loaded_keys
      → Stuck asked c
      → Stuck asked (signal_key_destroyed answer c)
  unfolding signal_key_destroyed
  signal_key_destroyed-Stuck answer c h s =
      unable c.stop_requested answer
        (record c {
          loaded_keys = c.loaded_keys - 1;
          failed_assertions =
              if ltb 0 c.loaded_keys then c.failed_assertions else suc c.failed_assertions;
        })
        (omega (arith, h)) (record { overwritten = s.overwritten; unasked = s.unasked })

  clear-Stuck :
      (answer : StopAnswer) (i : ℕ) (c : Context)
      → Inv c
      → Stuck asked c
      → Stuck asked (clear answer i c)
  unfolding clear
  clear-Stuck answer i c v s = go (at i c.keys).handle refl
    where
      go :
          (o : Option ℕ)
          → (at i c.keys).handle ≡ o
          → Stuck asked (clear_handle answer i (at i c.keys) o c)
      go none e = s
      go (some h) e =
          signal_key_destroyed-Stuck answer
            (record c {
              keys = set c.keys i no_key;
              destroyed = c.destroyed ++ (h, true) ∷ [];
              failed_assertions =
                  if (at i c.keys).parent then c.failed_assertions else suc c.failed_assertions;
            })
            (omega (arith, v.counted, live-set_none i c.keys, ap has_key e, s.overwritten))
            (record {
              overwritten =
                  omega (arith, s.overwritten, leaked-append c.destroyed ((h, true) ∷ []));
              unasked = s.unasked;
            })

  step-Stuck : (e : Event) (c : Context) → Inv c → Stuck asked c → Stuck asked (step e c)
  unfolding step load_key move_construct stop
  step-Stuck (loads size type answer handle) c v s =
      keep_key-Stuck (create_key size type answer handle) c s
  step-Stuck (moves j) c v s = record { overwritten = s.overwritten; unasked = s.unasked }
  step-Stuck (assigns i j) c v s = move_assign-Stuck i j c s
  step-Stuck (clears answer i) c v s = clear-Stuck answer i c v s
  step-Stuck (stops answer) c v s =
      unable true answer (record c { stop_requested = true })
        (omega (arith, v.counted, s.overwritten))
        (record { overwritten = s.overwritten; unasked = s.unasked })
  step-Stuck becomes_idle c v s = record { overwritten = s.overwritten; unasked = s.unasked }

  run-Stuck : (es : List Event) (c : Context) → Inv c → Stuck asked c → Stuck asked (run es c)
  unfolding run
  run-Stuck [] c v s = s
  run-Stuck (e ∷ es) c v s = run-Stuck es (step e c) (step-Inv e c v) (step-Stuck e c v s)

overwrites :
    (i j h : ℕ) (c : Context)
    → i < length c.keys
    → j < length c.keys
    → (i == j) ≡ false
    → (at i c.keys).handle ≡ some h
    → Stuck c.stops (step (assigns i j) c)
unfolding step move_assign
overwrites i j h c l m n e =
    let within : (ltb i (length c.keys) && ltb j (length c.keys)) ≡ true = ground (arith, l, m) in
    rw (within, n)
      (record {
        overwritten =
            omega (arith, leaked-drop_handle (at i c.keys).handle c.destroyed, ap has_key e);
        unasked = refl;
      })

-- If a key is move-assigned over another key object that holds a key, then the context counts the key
-- that is overwritten for ever: whatever is done to the context and its keys afterwards, DOCA is not
-- asked to stop the context.
pub overwritten_key_blocks_stop :
    (i j h : ℕ) (c : Context) (es : List Event)
    → Inv c
    → i < length c.keys
    → j < length c.keys
    → (i == j) ≡ false
    → (at i c.keys).handle ≡ some h
    → (run (assigns i j ∷ es) c).stops ≡ c.stops
unfolding run
overwritten_key_blocks_stop i j h c es v l m n e =
    (run-Stuck es (step (assigns i j) c) (step-Inv (assigns i j) c v)
      (overwrites i j h c l m n e)).unasked
