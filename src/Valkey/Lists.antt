-- ===== src/Valkey/Lists.antt =====
-- Lists, counters and plain keys, as the control queue uses them.
use inferspect.Prelude.{
  ℕ, suc, ◌≡◌, ◌≢◌, String, Option, none, some, List, [], ◌∷◌, ◌++◌, str_eq, if◌then◌else◌,
}

-- `rpop` takes from the tail, `none` when the list is empty. `brpop` gives `none` on a timeout;
-- what others push while it waits is the server's business. `scan p` lists
-- the keys that begin with p. `incr` gives the new count.
pub record Lists : Type 1 where
  pub Store : Type 0
  pub lpush : String → String → Store → Store
  pub rpop : String → Store → Option String × Store
  pub brpop : String → ℕ → Store → Option String × Store
  pub incr : String → Store → ℕ × Store
  pub get_count : String → Store → Option ℕ
  pub set_text : String → String → Store → Store
  pub get_text : String → Store → Option String
  pub expire : String → ℕ → Store → Store
  pub scan : String → Store → List String

abbrev pub first {ℓ} : {A : Type ℓ} → List A → Option A
first [] = none
first (x ∷ xs) = some x

abbrev pub rest {ℓ} : {A : Type ℓ} → List A → List A
rest [] = []
rest (x ∷ xs) = xs

abbrev pub count_or_zero : Option ℕ → ℕ
count_or_zero none = 0
count_or_zero (some n) = n

-- What the server promises while no key expires. `queue k s` is the list at `k` from its tail to its
-- head: `LPUSH` adds at the end of it, `RPOP` takes its first, and so does `BRPOP` when it is not
-- empty. The other commands leave lists alone, and only `INCR` and `SET` of a key change its count.
pub record ListLaws (v : Lists) : Type 0 where
  pub queue : String → v.Store → List String
  pub lpush_queue :
      (k j x : String) (s : v.Store)
      → queue j (v.lpush k x s) ≡ (if str_eq k j then queue j s ++ x ∷ [] else queue j s)
  pub rpop_answer : (k : String) (s : v.Store) → (v.rpop k s).0 ≡ first (queue k s)
  pub rpop_queue :
      (k j : String) (s : v.Store)
      → queue j (v.rpop k s).1 ≡ (if str_eq k j then rest (queue j s) else queue j s)
  pub brpop_ready : (k : String) (n : ℕ) (s : v.Store) → queue k s ≢ [] → v.brpop k n s ≡ v.rpop k s
  pub incr_queue : (k j : String) (s : v.Store) → queue j (v.incr k s).1 ≡ queue j s
  pub set_queue : (k j x : String) (s : v.Store) → queue j (v.set_text k x s) ≡ queue j s
  pub expire_queue : (k j : String) (n : ℕ) (s : v.Store) → queue j (v.expire k n s) ≡ queue j s
  pub incr_answer :
      (k : String) (s : v.Store) → (v.incr k s).0 ≡ suc (count_or_zero (v.get_count k s))
  pub incr_count :
      (k j : String) (s : v.Store)
      → v.get_count j (v.incr k s).1 ≡ (if str_eq k j then some (v.incr k s).0 else v.get_count j s)
  pub lpush_count : (k j x : String) (s : v.Store) → v.get_count j (v.lpush k x s) ≡ v.get_count j s
  pub rpop_count : (k j : String) (s : v.Store) → v.get_count j (v.rpop k s).1 ≡ v.get_count j s
  pub expire_count :
      (k j : String) (n : ℕ) (s : v.Store) → v.get_count j (v.expire k n s) ≡ v.get_count j s
  pub set_count :
      (k j x : String) (s : v.Store) → k ≢ j → v.get_count j (v.set_text k x s) ≡ v.get_count j s
  pub set_get :
      (k j x : String) (s : v.Store)
      → v.get_text j (v.set_text k x s) ≡ (if str_eq k j then some x else v.get_text j s)
  pub expire_get :
      (k j : String) (n : ℕ) (s : v.Store) → v.get_text j (v.expire k n s) ≡ v.get_text j s
