-- ===== src/AesGcm/Counting/Loading.antt =====
-- What `create_key` and `load_key` return (shoc/aes_gcm.cpp).
use shoc.Base.{ℕ, ◌/◌, ◌≡◌, refl, sym, ap, true, some, [], ◌∷◌, arith, ◌==◌}
use shoc.Doca.{DocaError, invalid_value}
use shoc.Error.{Outcome, ok, throws, terminates, undefined, ◌>>◌, enforce, enforce_success}
use shoc.AesGcm.{
  KeyType, aes_gcm_key_128, aes_gcm_key_256, other_key_type, expected_key_size, Key, Context,
  create_key, keep_key, load_key,
}
use shoc.AesGcm.Counting.Keys.{live-append, has_key, KnowsParent, no_key-KnowsParent, at-append_all}
use shoc.AesGcm.Counting.Stopping.{Inv}

>>-returns :
    {A : Type 0} (m : Outcome (Unit {0})) (n : Outcome A) (a : A) → (m >> n) ≡ ok a → n ≡ ok a
>>-returns (ok u) n a e = e
>>-returns (throws x) n a e = cc
>>-returns terminates n a e = cc
>>-returns undefined n a e = cc

ok-injective : (k l : Key) → ◌≡◌ {A = Outcome Key} (ok k) (ok l) → k ≡ l
ok-injective k l e = cc

sized_key :
    (size expected : ℕ) (answer : DocaError) (handle : ℕ) (k : Key)
    → (enforce (expected == size) invalid_value
        >> (enforce_success answer >> ok (record { handle = some handle; parent = true })))
      ≡ ok k
    → record { handle = some handle; parent = true } ≡ k
sized_key size expected answer handle k e = ok-injective _ _ (
    >>-returns (enforce_success answer) _ k
      (>>-returns (enforce (expected == size) invalid_value) _ k e))

create_key-returns :
    (size : ℕ) (type : KeyType) (answer : DocaError) (handle : ℕ) (k : Key)
    → create_key size type answer handle ≡ ok k
    → record { handle = some handle; parent = true } ≡ k
unfolding create_key expected_key_size
create_key-returns size aes_gcm_key_128 answer handle k e =
    sized_key size (128 / 8) answer handle k e
create_key-returns size aes_gcm_key_256 answer handle k e =
    sized_key size (256 / 8) answer handle k e
create_key-returns size (other_key_type n) answer handle k e = cc

pub load_key-Inv :
    (size : ℕ) (type : KeyType) (answer : DocaError) (handle : ℕ) (c : Context)
    → Inv c
    → Inv (load_key size type answer handle c)
unfolding load_key
load_key-Inv size type answer handle c v = go (create_key size type answer handle) refl
  where
    go : (o : Outcome Key) → create_key size type answer handle ≡ o → Inv (keep_key o c)
    go (ok k) e =
        let q = create_key-returns size type answer handle k e in
        record {
          counted =
              omega (
                arith,
                v.counted,
                live-append c.keys (k ∷ []),
                ap (λ (x : Key). has_key x.handle) q,
              );
          parents =
              at-append_all KnowsParent no_key-KnowsParent c.keys k
                (λ x y. sym (ap (λ (z : Key). z.parent) q)) v.parents;
          assertions_hold = v.assertions_hold;
          stopped_without_keys = v.stopped_without_keys;
          stop_is_asked = λ r l x. absurd (omega (arith, l));
        }
    go (throws x) e = v
    go terminates e = v
    go undefined e = v
