-- ===== src/World/Laws.antt =====
-- What is documented of Redis, as laws of the commands: keys hold texts until they are written,
-- deleted or run out, and a command touches its own key only.
use zero_trust_proxy.Common.{ℕ, suc, ◌≡◌, ◌≢◌, ◌⊎◌, String, Option, none, some}
use zero_trust_proxy.Common.Int.{ℤ, pos}
use zero_trust_proxy.Error.{ok, err}
use zero_trust_proxy.World.{Redis}

-- The later value is the earlier one, unless the key has run out.
abbrev pub Lapses : Option String → Option String → Type 0
Lapses before after = (after ≡ before) ⊎ (after ≡ none)

-- `value s k` is what a command that is run at `s` finds at `k`.
pub record RedisLaws {Store : Type 0} (redis : Redis Store) (value : Store → String → Option String)
    : Type 0 where
  pub get_value :
      (k : String) (s : Store) (v : Option String) → (redis.get k s).0 ≡ ok v → v ≡ value s k
  pub get_keeps : (k j : String) (s : Store) → Lapses (value s j) (value (redis.get k s).1 j)
  pub set_ex_value :
      (k v : String) (ttl : ℕ) (s : Store)
      → (redis.set_ex k v ttl s).0 ≡ ok tt
      → value (redis.set_ex k v ttl s).1 k ≡ some v
  pub set_ex_keeps :
      (k v j : String) (ttl : ℕ) (s : Store)
      → j ≢ k
      → Lapses (value s j) (value (redis.set_ex k v ttl s).1 j)
  -- A write that fails has been done or not.
  pub set_ex_failed :
      (k v e : String) (ttl : ℕ) (s : Store)
      → (redis.set_ex k v ttl s).0 ≡ err e
      → (value (redis.set_ex k v ttl s).1 k ≡ some v)
        ⊎ Lapses (value s k) (value (redis.set_ex k v ttl s).1 k)
  pub del_value :
      (k : String) (s : Store) → (redis.del k s).0 ≡ ok tt → value (redis.del k s).1 k ≡ none
  pub del_keeps : (k j : String) (s : Store) → Lapses (value s j) (value (redis.del k s).1 j)
  pub scan_keeps :
      (p j : String) (s : Store) → Lapses (value s j) (value (redis.scan_match p s).1 j)
  pub incr_keeps :
      (k j : String) (n : ℕ) (s : Store) → j ≢ k → Lapses (value s j) (value (redis.incr k n s).1 j)
  pub expire_keeps :
      (k j : String) (n : ℤ) (s : Store) → Lapses (value s j) (value (redis.expire k n s).1 j)

-- A counter that does not run out: `count s k` is how often it has been incremented. An `INCR` that
-- is answered gives that number; one that fails has been done or not, and an `EXPIRE` with a time to
-- come keeps the number, whatever its answer.
pub record CounterLaws {Store : Type 0} (redis : Redis Store) (count : Store → String → ℕ)
    : Type 0 where
  pub incr_answer :
      (k : String) (v : ℤ) (s : Store) → (redis.incr k 1 s).0 ≡ ok v → v ≡ pos (suc (count s k))
  pub incr_count :
      (k : String) (v : ℤ) (s : Store)
      → (redis.incr k 1 s).0 ≡ ok v
      → count (redis.incr k 1 s).1 k ≡ suc (count s k)
  pub incr_failed :
      (k e : String) (s : Store)
      → (redis.incr k 1 s).0 ≡ err e
      → (count (redis.incr k 1 s).1 k ≡ count s k)
        ⊎ (count (redis.incr k 1 s).1 k ≡ suc (count s k))
  pub expire_count :
      (k : String) (n : ℕ) (s : Store) → count (redis.expire k (pos (suc n)) s).1 k ≡ count s k
