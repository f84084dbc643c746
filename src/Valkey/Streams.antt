-- ===== src/Valkey/Streams.antt =====
-- `SET NX` and `XADD`, as the ingestion service and the dead-letter publishers use them.
use inferspect.Prelude.{
  String, Bool, true, not, ◌||◌, ◌≡◌, Option, some, List, [], ◌∷◌, ◌++◌, str_eq, if◌then◌else◌,
}

-- The fields of one stream entry.
abbrev pub Entry : Type 0
Entry = List (String × String)

-- `set_nx k s` answers whether the key was claimed; `none` is an exception of the client. `xadd`
-- answers whether the entry was appended; `false` is an exception.
pub record Streams : Type 1 where
  pub Store : Type 0
  pub set_nx : String → Store → Option (Bool × Store)
  pub xadd : String → Entry → Store → Bool × Store

-- What the server promises while no key expires and no stream reaches its `MAXLEN`: a claim is
-- granted once, commands on one key leave the others alone, and entries are appended in order.
pub record StreamLaws (v : Streams) : Type 0 where
  pub seen : String → v.Store → Bool
  pub stream : String → v.Store → List Entry
  pub nx_answer :
      (k : String) (s s' : v.Store) (b : Bool) → v.set_nx k s ≡ some (b, s') → b ≡ not (seen k s)
  pub nx_seen :
      (k j : String) (s s' : v.Store) (b : Bool)
      → v.set_nx k s ≡ some (b, s')
      → seen j s' ≡ (str_eq k j || seen j s)
  pub nx_stream :
      (k j : String) (s s' : v.Store) (b : Bool)
      → v.set_nx k s ≡ some (b, s')
      → stream j s' ≡ stream j s
  pub xadd_seen : (st j : String) (e : Entry) (s : v.Store) → seen j (v.xadd st e s).1 ≡ seen j s
  pub xadd_stream :
      (st j : String) (e : Entry) (s : v.Store)
      → (v.xadd st e s).0 ≡ true
      → stream j (v.xadd st e s).1 ≡ (if str_eq st j then stream j s ++ e ∷ [] else stream j s)
