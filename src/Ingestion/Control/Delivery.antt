-- ===== src/Ingestion/Control/Delivery.antt =====
-- Commands on their way through a host's outbox.
use mathlib.Core.Bool.{false≢true}
use inferspect.Prelude.{
  ℕ, zero, suc, ◌-◌, ◌<◌, ◌≡◌, ◌≢◌, refl, ap, sym, ◌∙◌, String, some, List, [], ◌∷◌, ◌++◌, map,
  arith, take, drop, All, str_append, str_take, Bool-cases, inl, inr, str_eq, eq_iff, eq_refl,
  if◌then◌else◌,
}
use inferspect.Value.{Fields, end, obj, str, insert}
use inferspect.Value.Codec.{Codec}
use inferspect.Valkey.Lists.{Lists, ListLaws, count_or_zero, first}
use inferspect.Ingestion.Control.Queue.{
  queue_key, cursor_key, heartbeat_key, decode, enqueue, touch_heartbeat, drain, await_commands,
}

-- The text of a command comes back as the command.
abbrev pub RoundTrips : Codec → Fields → Type 0
RoundTrips c command = c.loads (c.dumps (obj command)) ≡ some (obj command)

str_append_injective : (p a b : String) → str_append p a ≡ str_append p b → a ≡ b
str_append_injective String.[] a b e = e
str_append_injective (String.◌∷◌ x p) a b e = str_append_injective p a b (cc)

decode_round_trip : (c : Codec) (f : Fields) → RoundTrips c f → decode c (c.dumps (obj f)) ≡ f
unfolding decode
decode_round_trip c f h = rw h

heartbeat-ne-cursor : (h j : String) → heartbeat_key h ≢ cursor_key j
unfolding heartbeat_key cursor_key
heartbeat-ne-cursor h j e =
    let prefixes : ◌≡◌ {A = String} "control:h" "control:c" = ap (str_take 9) e in
    false≢true ((eq_iff "control:h" "control:c").1 prefixes)

queue_key-injective : (h j : String) → queue_key h ≡ queue_key j → h ≡ j
unfolding queue_key
queue_key-injective h j e = str_append_injective "control:queue:" h j e

module _ (v : Lists) (c : Codec) (ttl : ℕ) (laws : ListLaws v) where
  open laws use {
    queue, lpush_queue, rpop_answer, rpop_queue, brpop_ready, incr_queue, set_queue, expire_queue,
    incr_answer, incr_count, lpush_count, expire_count, rpop_count, set_count,
  }

  -- The hosts' keys compare as the hosts do.
  same_host : (host other : String) → str_eq (queue_key host) (queue_key other) ≡ str_eq host other
  same_host host other = elim (Bool-cases (str_eq host other)) [
    | inl same ↦ ground (arith, eq_iff host other, eq_refl (queue_key host))
    | inr apart ↦ elim (Bool-cases (str_eq (queue_key host) (queue_key other))) [
      | inl e ↦
          let same =
            queue_key-injective host other ((eq_iff (queue_key host) (queue_key other)).0 e) in
          e ∙ sym ((eq_iff host other).1 same)
      | inr e ↦ e ∙ sym apart
    ]
  ]

  -- Enqueueing for one host adds its command at the end of that host's queue and changes no other
  -- host's queue, and raises that host's cursor by one.
  pub enqueue_appends :
      (host other : String) (command : Fields) (s : v.Store)
      → let (cursor, s') = enqueue v c ttl host command s in
        (queue (queue_key other) s' ≡ (
          if str_eq host other
          then queue (queue_key other) s ++ c.dumps (obj command) ∷ []
          else queue (queue_key other) s))
        × (cursor ≡ suc (count_or_zero (v.get_count (cursor_key host) s)))
        × (v.get_count (cursor_key host) s' ≡ some cursor)
  unfolding enqueue
  enqueue_appends host other command s =
      let qk = queue_key host in
      let ck = cursor_key host in
      let text = c.dumps (obj command) in
      let s1 = v.lpush qk text s in
      let s2 = v.expire qk ttl s1 in
      let s3 = (v.incr ck s2).1 in
      let same = λ (j : String).
        expire_queue ck j ttl s3
        ∙ incr_queue ck j s2
        ∙ expire_queue qk j ttl s1
        ∙ lpush_queue qk j text s in
      (
        ground (arith, same (queue_key other), same_host host other),
        ground (arith, incr_answer ck s2, expire_count qk ck ttl s1, lpush_count qk ck text s),
        ground (arith, expire_count ck ck ttl s3, incr_count ck ck s2, eq_refl ck),
      )

  drain_queue :
      (n : ℕ) (key : String) (cs : List Fields) (s : v.Store)
      → All (RoundTrips c) cs
      → queue key s ≡ map (λ f. c.dumps (obj f)) cs
      → ((drain v c ttl n key s).0 ≡ take n cs)
        × (queue key (drain v c ttl n key s).1 ≡ map (λ f. c.dumps (obj f)) (drop n cs))
  unfolding drain
  drain_queue zero key cs s h q = (refl, q)
  drain_queue (suc n) key [] s h q =
      ground (arith, rpop_answer key s, rpop_queue key key s, eq_refl key)
  drain_queue (suc n) key (f ∷ cs) s h q =
      let s' = (v.rpop key s).1 in
      let answer : (v.rpop key s).0 ≡ some (c.dumps (obj f)) = rpop_answer key s ∙ ap first q in
      let remains : queue key s' ≡ map (λ g. c.dumps (obj g)) cs =
        ground (arith, rpop_queue key key s, eq_refl key) in
      let ih = drain_queue n key cs s' h.1 remains in
      ground (arith, answer, ih, decode_round_trip c f h.0)

  drain_count :
      (n : ℕ) (key j : String) (s : v.Store)
      → v.get_count j (drain v c ttl n key s).1 ≡ v.get_count j s
  unfolding drain
  drain_count zero key j s = refl
  drain_count (suc n) key j s =
      ground (arith, rpop_count key j s, drain_count n key j (v.rpop key s).1)

  -- When the outbox of a host holds commands whose texts decode back, a poll delivers the oldest
  -- `max_batch` of them in the order they were enqueued and leaves the rest in the outbox; its cursor
  -- is the host's count of commands.
  pub await_delivers :
      (host now : String) (timeout max_batch : ℕ) (f : Fields) (cs : List Fields) (s : v.Store)
      → 0 < max_batch
      → All (RoundTrips c) (f ∷ cs)
      → queue (queue_key host) s ≡ map (λ g. c.dumps (obj g)) (f ∷ cs)
      → let (commands, cursor, s') = await_commands v c ttl host timeout max_batch now s in
        (commands ≡ take max_batch (f ∷ cs))
        × (queue (queue_key host) s' ≡ map (λ g. c.dumps (obj g)) (drop max_batch (f ∷ cs)))
        × (cursor ≡ count_or_zero (v.get_count (cursor_key host) s))
  unfolding await_commands touch_heartbeat
  await_delivers host now timeout zero f cs s pos h q = absurd (omega arith)
  await_delivers host now timeout (suc m) f cs s pos h q =
      let qk = queue_key host in
      let ck = cursor_key host in
      let hk = heartbeat_key host in
      let blob = c.dumps (obj (insert "last_seen" (str now) end)) in
      let t1 = v.set_text hk blob s in
      let s1 = touch_heartbeat v c ttl host end now s in
      let q1 : queue qk s1 ≡ map (λ g. c.dumps (obj g)) (f ∷ cs) =
        expire_queue hk qk ttl t1 ∙ set_queue hk qk blob s ∙ q in
      let ready : queue qk s1 ≢ [] = (λ e. cc) in
      let popped = brpop_ready qk timeout s1 ready in
      let s2 = (v.rpop qk s1).1 in
      let answer : (v.rpop qk s1).0 ≡ some (c.dumps (obj f)) = rpop_answer qk s1 ∙ ap first q1 in
      let remains : queue qk s2 ≡ map (λ g. c.dumps (obj g)) cs =
        ground (arith, rpop_queue qk qk s1, eq_refl qk) in
      let d = drain_queue m qk cs s2 h.1 remains in
      let count : v.get_count ck s1 ≡ v.get_count ck s =
        expire_count hk ck ttl t1 ∙ set_count hk ck blob s (heartbeat-ne-cursor host host) in
      let size : suc m - 1 ≡ m = omega arith in
      ground (
        arith,
        popped,
        answer,
        d,
        size,
        decode_round_trip c f h.0,
        drain_count m qk ck s2,
        rpop_count qk ck s1,
        count,
      )
