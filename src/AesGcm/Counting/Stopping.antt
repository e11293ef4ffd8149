-- ===== src/AesGcm/Counting/Stopping.antt =====
-- The stop of an AES-GCM context (shoc/aes_gcm.cpp), which waits for its keys.
use shoc.Base.{
  ℕ, suc, ◌+◌, ◌≡◌, refl, Bool, true, false, List, [], ◌∷◌, ◌++◌, arith, ltb, if◌then◌else◌,
  is_empty, All,
}
use shoc.Context.Registry.{StopAnswer, at_once, in_time, refused}
use shoc.AesGcm.{Context, stop_answered, do_stop_if_able, signal_key_destroyed, at}
use shoc.AesGcm.Counting.Keys.{live, leaked, KnowsParent}

pub record Inv (c : Context) : Type 0 where
  pub counted : c.loaded_keys ≡ live c.keys + leaked c.destroyed
  pub parents : (i : ℕ) → KnowsParent (at i c.keys)
  pub assertions_hold : c.failed_assertions ≡ 0
  pub stopped_without_keys : All (λ n. ◌≡◌ {A = ℕ} n 0) c.stops
  pub stop_is_asked :
      c.stop_requested ≡ true → c.loaded_keys ≡ 0 → c.has_handle ≡ true → is_empty c.stops ≡ false

pub if-Inv :
    (b : Bool) (c d : Context) → (b ≡ true → Inv c) → (b ≡ false → Inv d) → Inv (if b then c else d)
if-Inv true c d v w = v refl
if-Inv false c d v w = w refl

All-snoc :
    (l : List ℕ) (n : ℕ)
    → All (λ n. ◌≡◌ {A = ℕ} n 0) l
    → n ≡ 0
    → All (λ n. ◌≡◌ {A = ℕ} n 0) (l ++ n ∷ [])
All-snoc [] n h e = (e, tt)
All-snoc (m ∷ l) n h e = (h.0, All-snoc l n h.1 e)

snoc_not_empty : (l : List ℕ) (n : ℕ) → is_empty (l ++ n ∷ []) ≡ false
snoc_not_empty [] n = refl
snoc_not_empty (m ∷ l) n = refl

-- All but the last part of the invariant.
pub record Kept (c : Context) : Type 0 where
  pub counted : c.loaded_keys ≡ live c.keys + leaked c.destroyed
  pub parents : (i : ℕ) → KnowsParent (at i c.keys)
  pub assertions_hold : c.failed_assertions ≡ 0
  pub stopped_without_keys : All (λ n. ◌≡◌ {A = ℕ} n 0) c.stops

asked-Inv :
    (answer : StopAnswer) (c : Context)
    → Kept c
    → c.loaded_keys ≡ 0
    → Inv (stop_answered answer (record c { stops = c.stops ++ c.loaded_keys ∷ [] }))
unfolding stop_answered
asked-Inv at_once c v e = record {
  counted = v.counted;
  parents = v.parents;
  assertions_hold = v.assertions_hold;
  stopped_without_keys = All-snoc c.stops c.loaded_keys v.stopped_without_keys e;
  stop_is_asked = λ r l h. snoc_not_empty c.stops c.loaded_keys;
}
asked-Inv in_time c v e = record {
  counted = v.counted;
  parents = v.parents;
  assertions_hold = v.assertions_hold;
  stopped_without_keys = All-snoc c.stops c.loaded_keys v.stopped_without_keys e;
  stop_is_asked = λ r l h. snoc_not_empty c.stops c.loaded_keys;
}
asked-Inv (refused x) c v e = record {
  counted = v.counted;
  parents = v.parents;
  assertions_hold = v.assertions_hold;
  stopped_without_keys = All-snoc c.stops c.loaded_keys v.stopped_without_keys e;
  stop_is_asked = λ r l h. snoc_not_empty c.stops c.loaded_keys;
}

-- Whatever was left open about the stop, `do_stop_if_able` settles.
pub do_stop_if_able-Inv :
    (answer : StopAnswer) (c : Context) → Kept c → Inv (do_stop_if_able answer c)
unfolding do_stop_if_able
do_stop_if_able-Inv answer c v =
    if-Inv (ltb 0 c.loaded_keys) _ _
      (λ e. record {
        counted = v.counted;
        parents = v.parents;
        assertions_hold = v.assertions_hold;
        stopped_without_keys = v.stopped_without_keys;
        stop_is_asked = λ r l h. ground (arith, e, l);
      })
      (λ e.
        if-Inv c.has_handle _ _ (λ h. asked-Inv answer c v (ground (arith, e)))
          (λ n. record {
            counted = v.counted;
            parents = v.parents;
            assertions_hold = v.assertions_hold;
            stopped_without_keys = v.stopped_without_keys;
            stop_is_asked = λ r l h. ground (arith, n, h);
          }))

-- One key less is loaded.
pub signal_key_destroyed-Inv :
    (answer : StopAnswer) (c : Context)
    → c.loaded_keys ≡ suc (live c.keys + leaked c.destroyed)
    → ((i : ℕ) → KnowsParent (at i c.keys))
    → c.failed_assertions ≡ 0
    → All (λ n. ◌≡◌ {A = ℕ} n 0) c.stops
    → Inv (signal_key_destroyed answer c)
unfolding signal_key_destroyed
signal_key_destroyed-Inv answer c e p a s =
    if-Inv c.stop_requested _ _
      (λ r. do_stop_if_able-Inv answer _ (record {
        counted = omega (arith, e);
        parents = p;
        assertions_hold = ground (arith, e, a);
        stopped_without_keys = s;
      }))
      (λ r. record {
        counted = omega (arith, e);
        parents = p;
        assertions_hold = ground (arith, e, a);
        stopped_without_keys = s;
        stop_is_asked = λ q l h. ground (arith, r, q);
      })
