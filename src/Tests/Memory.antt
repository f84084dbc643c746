-- ===== src/Tests/Memory.antt =====
-- Valkey in memory, and a codec that knows two texts.
use inferspect.Prelude.{
  ℕ, suc, ap, sym, ◌≡◌, ◌≢◌, refl, String, Bool, false, not, ◌&&◌, ◌||◌, Option, none, some, List,
  [], ◌∷◌, ◌++◌, arith, str_eq, eq_iff, if◌then◌else◌,
}
use inferspect.Value.{Value, Fields, obj, field}
use inferspect.Value.Codec.{Codec}
use inferspect.Valkey.Streams.{Entry, Streams, StreamLaws}
use inferspect.Valkey.Lists.{Lists, ListLaws, first, rest, count_or_zero}

-- The claimed keys and the streams. Appending raises when `up` is false.
abbrev pub memory : Bool → Streams
memory up = record {
  Store = (String → Bool) × (String → List Entry);
  set_nx = λ k s. some (not (s.0 k), (λ j. str_eq k j || s.0 j, s.1));
  xadd = λ st e s. (up, (s.0, λ j. if up && str_eq st j then s.1 j ++ e ∷ [] else s.1 j));
}

abbrev pub empty_streams : (up : Bool) → (memory up).Store
empty_streams up = (λ k. false, λ j. [])

pub claimed_store :
    (up : Bool) (k : String) (s s' : (memory up).Store) (b : Bool)
    → (memory up).set_nx k s ≡ some (b, s')
    → (λ j. str_eq k j || s.0 j, s.1) ≡ s'
claimed_store up k s s' b h = cc

pub claim_answer :
    (up : Bool) (k : String) (s s' : (memory up).Store) (b : Bool)
    → (memory up).set_nx k s ≡ some (b, s')
    → b ≡ not (s.0 k)
claim_answer up k s s' b h = cc

abbrev pub memory_laws : (up : Bool) → StreamLaws (memory up)
memory_laws up = record {
  seen = λ k s. s.0 k;
  stream = λ j s. s.1 j;
  nx_answer = λ k s s' b h. claim_answer up k s s' b h;
  nx_seen = λ k j s s' b h. ap (λ m. m.0 j) (sym (claimed_store up k s s' b h));
  nx_stream = λ k j s s' b h. ap (λ m. m.1 j) (sym (claimed_store up k s s' b h));
  xadd_seen = λ st j e s. refl;
  xadd_stream = λ st j e s h. rw h;
}

-- The lists from tail to head, the counters and the texts.
abbrev pub lists : Lists
lists = record {
  Store = (String → List String) × (String → Option ℕ) × (String → Option String);
  lpush = λ k x s. (λ j. if str_eq k j then s.0 j ++ x ∷ [] else s.0 j, s.1, s.2);
  rpop = λ k s. (first (s.0 k), (λ j. if str_eq k j then rest (s.0 j) else s.0 j, s.1, s.2));
  brpop = λ k n s. (first (s.0 k), (λ j. if str_eq k j then rest (s.0 j) else s.0 j, s.1, s.2));
  incr = λ k s.
      let n = suc (count_or_zero (s.1 k)) in
      (n, (s.0, λ j. if str_eq k j then some n else s.1 j, s.2));
  get_count = λ k s. s.1 k;
  set_text = λ k x s.
      (s.0, λ j. if str_eq k j then none else s.1 j, λ j. if str_eq k j then some x else s.2 j);
  get_text = λ k s. s.2 k;
  expire = λ k n s. s;
  scan = λ p s. [];
}

abbrev pub empty_lists : lists.Store
empty_lists = (λ k. [], λ k. none, λ k. none)

pub set_other :
    (k j x : String) (s : lists.Store)
    → k ≢ j
    → lists.get_count j (lists.set_text k x s) ≡ lists.get_count j s
set_other k j x s h = ground (arith, eq_iff k j)

abbrev pub list_laws : ListLaws lists
list_laws = record {
  queue = λ k s. s.0 k;
  lpush_queue = λ k j x s. refl;
  rpop_answer = λ k s. refl;
  rpop_queue = λ k j s. refl;
  brpop_ready = λ k n s h. refl;
  incr_queue = λ k j s. refl;
  set_queue = λ k j x s. refl;
  expire_queue = λ k j n s. refl;
  incr_answer = λ k s. refl;
  incr_count = λ k j s. refl;
  lpush_count = λ k j x s. refl;
  rpop_count = λ k j s. refl;
  expire_count = λ k j n s. refl;
  set_count = set_other;
  set_get = λ k j x s. refl;
  expire_get = λ k j n s. refl;
}

-- A wrapper's text is "outer" and any other value's is "inner".
abbrev pub text_of : Value → String
text_of (obj (field k v fs)) = if str_eq k "payload" then "outer" else "inner"
text_of v = "inner"

abbrev pub two_texts : Fields → Fields → Codec
two_texts inner outer = record {
  dumps = text_of;
  loads = λ t.
      if str_eq t "outer"
      then some (obj outer)
      else if str_eq t "inner"
      then some (obj inner)
      else none;
  text = λ v. "text";
}
