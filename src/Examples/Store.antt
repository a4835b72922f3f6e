-- ===== src/Examples/Store.antt =====
-- A Redis that never fails and in which nothing runs out, over an association list.
use zero_trust_proxy.Common.{
  ◌≡◌, ◌≢◌, refl, String, ◌==◌, eq_iff, eq_refl, Option, none, some, List, [], ◌∷◌, map, arith,
  if◌then◌else◌, inl, inr, Bool-cases,
}
use zero_trust_proxy.Common.Int.{pos}
use zero_trust_proxy.Error.{Result, ok}
use zero_trust_proxy.World.{Redis}
use zero_trust_proxy.World.Laws.{RedisLaws, Lapses}

abbrev pub Pairs : Type 0
Pairs = List (String × String)

unfoldable pub lookup : Pairs → String → Option String
lookup [] k = none
lookup ((j, v) ∷ m) k = if j == k then some v else lookup m k

remove : String → Pairs → Pairs
remove k [] = []
remove k ((j, v) ∷ m) = let rest = remove k m in if j == k then rest else (j, v) ∷ rest

lookup-remove_self : (k : String) (m : Pairs) → lookup (remove k m) k ≡ none
unfolding lookup remove
lookup-remove_self k [] = refl
lookup-remove_self k ((j, v) ∷ m) = ground (arith, lookup-remove_self k m)

lookup-remove : (k j : String) (m : Pairs) → j ≢ k → lookup (remove k m) j ≡ lookup m j
unfolding lookup remove
lookup-remove k j [] ne = refl
lookup-remove k j ((i, v) ∷ m) ne = ground (arith, lookup-remove k j m ne, eq_iff i k, eq_iff i j)

unfoldable pub redis : Redis Pairs
unfolding lookup remove
redis = record {
  get = λ k s. (ok (lookup s k), s);
  set_ex = λ k v ttl s. (ok tt, (k, v) ∷ s);
  del = λ k s. (ok tt, remove k s);
  scan_match = λ pattern s. (ok (map (λ e. e.0) s), s);
  incr = λ k n s. (ok (pos n), s);
  expire = λ k n s. (ok tt, s);
}

set_keeps : (k v j : String) (s : Pairs) → j ≢ k → lookup ((k, v) ∷ s) j ≡ lookup s j
unfolding lookup
set_keeps k v j s ne = ground (arith, eq_iff k j)

set_value : (k v : String) (s : Pairs) → lookup ((k, v) ∷ s) k ≡ some v
unfolding lookup
set_value k v s = ground (arith, eq_refl k)

del_keeps : (k j : String) (s : Pairs) → Lapses (lookup s j) (lookup (remove k s) j)
del_keeps k j s = elim (Bool-cases (j == k)) [
  | inl e ↦ inr (rw ((eq_iff j k).0 e) (lookup-remove_self k s))
  | inr e ↦ inl (lookup-remove k j s (λ q. ground (arith, (eq_iff j k).1 q)))
]

some_of : (a b : Option String) → ◌≡◌ {A = Result String (Option String)} (ok a) (ok b) → b ≡ a
some_of a b h = cc

pub redis-RedisLaws : RedisLaws redis lookup
unfolding redis
redis-RedisLaws = record {
  get_value = λ k s v h. some_of (lookup s k) v h;
  get_keeps = λ k j s. inl refl;
  set_ex_value = λ k v ttl s h. set_value k v s;
  set_ex_failed = λ k v e ttl s h. absurd (ground arith);
  set_ex_keeps = λ k v j ttl s ne. inl (set_keeps k v j s ne);
  del_value = λ k s h. lookup-remove_self k s;
  del_keeps = λ k j s. del_keeps k j s;
  scan_keeps = λ p j s. inl refl;
  incr_keeps = λ k j n s ne. inl refl;
  expire_keeps = λ k j n s. inl refl;
}
