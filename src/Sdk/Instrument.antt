-- ===== src/Sdk/Instrument.antt =====
-- packages/chatbot-sdk/chatbot_sdk/integrations/_instrument.py: `wrap_method`, and the functions
-- `instrument` of openai.py, anthropic.py and google.py beside it.
pub mod Once
use inferspect.Prelude.{
  ◌≡◌, String, Bool, true, false, ◌||◌, Option, none, some, List, [], ◌∷◌, str_eq, str_startswith,
  if◌then◌else◌,
}

-- A Python object: what a call of it does, whether it is tagged as instrumented, and its attributes.
-- An object stands at one path only.
mutual
  pub data Node (F : Type 0) : Type 0 where
    node : F → Bool → Attrs F → Node F

  pub data Attrs (F : Type 0) : Type 0 where
    bare : Attrs F
    attr : String → Node F → Attrs F → Attrs F

-- The factory; and whether an attribute can be set on a callable, and the thin function around one
-- on which it cannot.
pub record Wrapping (F : Type 0) : Type 0 where
  pub factory : F → F
  pub taggable : F → Bool
  pub thin : F → F

module _ {F : Type 0} where
  abbrev pub is_tagged : Node F → Bool
  is_tagged (node f tagged attrs) = tagged

  abbrev pub attrs_of : Node F → Attrs F
  attrs_of (node f tagged attrs) = attrs

  abbrev pub with_attrs : Node F → Attrs F → Node F
  with_attrs (node f tagged old) attrs = node f tagged attrs

  -- `getattr(obj, name)`, with `none` for AttributeError.
  unfoldable pub get_attr : String → Attrs F → Option (Node F)
  get_attr name bare = none
  get_attr name (attr k n rest) = if str_eq k name then some n else get_attr name rest

  -- `setattr(obj, name, value)` of an attribute that is there.
  unfoldable pub set_attr : String → Node F → Attrs F → Attrs F
  set_attr name n bare = bare
  set_attr name n (attr k m rest) =
      if str_eq k name then attr k n rest else attr k m (set_attr name n rest)

  abbrev tag : Wrapping F → F → Node F
  tag w wrapped =
      if w.taggable wrapped then node wrapped true bare else node (w.thin wrapped) true bare

  abbrev pub wrapped : Wrapping F → Node F → Node F
  wrapped w (node f tagged attrs) = if tagged then node f tagged attrs else tag w (w.factory f)

  -- The leaf's parent, by its attributes.
  abbrev pub set_found : Wrapping F → String → Option (Node F) → Attrs F → Option (Attrs F)
  set_found w leaf none attrs = none
  set_found w leaf (some original) attrs = some (set_attr leaf (wrapped w original) attrs)

  abbrev pub wrap_leaf : Wrapping F → String → Attrs F → Option (Attrs F)
  wrap_leaf w leaf attrs = set_found w leaf (get_attr leaf attrs) attrs

  abbrev pub set_inner : String → Node F → Attrs F → Option (Attrs F) → Option (Attrs F)
  set_inner part parent attrs none = none
  set_inner part parent attrs (some inner) = some (set_attr part (with_attrs parent inner) attrs)

  -- The walk into an attribute, given what is done inside.
  abbrev pub walk_into :
      String → Option (Node F) → (Attrs F → Option (Attrs F)) → Attrs F → Option (Attrs F)
  walk_into part none inside attrs = none
  walk_into part (some parent) inside attrs = set_inner part parent attrs (inside (attrs_of parent))

  -- `wrap_method`, of the parts before the leaf and the leaf; `none` is AttributeError.
  unfoldable pub wrap_method : Wrapping F → List String → String → Attrs F → Option (Attrs F)
  unfolding get_attr set_attr
  wrap_method w [] leaf attrs = wrap_leaf w leaf attrs
  wrap_method w (part ∷ parts) leaf attrs =
      walk_into part (get_attr part attrs) (wrap_method w parts leaf) attrs

-- What `instrument` builds around a method: the wrapper that traces, or the stub that refuses, and
-- `inspect.iscoroutinefunction` and `isasyncgenfunction`.
pub record Builder (F : Type 0) : Type 0 where
  pub traced : F → F
  pub traced_stream : F → F
  pub stub : F → F
  pub is_coroutine : F → Bool
  pub is_async_gen : F → Bool
  pub taggable : F → Bool
  pub thin : F → F

module _ {F : Type 0} (b : Builder F) where
  abbrev by_factory : (F → F) → Wrapping F
  by_factory factory = record { factory = factory; taggable = b.taggable; thin = b.thin }

  -- OpenAI's and Anthropic's `_factory`, by the name of the client's class.
  abbrev pub by_class : String → Wrapping F
  by_class class_name =
      by_factory (λ f.
        if str_startswith "Async" class_name || b.is_coroutine f then b.traced f else b.stub f)

  -- Google's factories.
  abbrev pub by_kind : (F → F) → Wrapping F
  by_kind traced =
      by_factory (λ f. if b.is_coroutine f || b.is_async_gen f then traced f else b.stub f)

  unfoldable pub instrument_openai : String → Attrs F → Option (Attrs F)
  instrument_openai class_name =
      wrap_method (by_class class_name) ("chat" ∷ "completions" ∷ []) "create"

  unfoldable pub instrument_anthropic : String → Attrs F → Option (Attrs F)
  instrument_anthropic class_name = wrap_method (by_class class_name) ("messages" ∷ []) "create"

  abbrev has_attr : String → Attrs F → Bool
  has_attr name attrs = elim (get_attr name attrs) [ none ↦ false | some n ↦ true ]

  abbrev has_path : String → String → Attrs F → Bool
  has_path first second attrs = elim (get_attr first attrs) [
    | none ↦ false
    | some n ↦ has_attr second (attrs_of n)
  ]

  abbrev wrap_stream : Option (Attrs F) → Option (Attrs F)
  wrap_stream none = none
  wrap_stream (some client) =
      wrap_method (by_kind b.traced_stream) ("aio" ∷ "models" ∷ []) "generate_content_stream" client

  abbrev wrap_async : Attrs F → Option (Attrs F)
  wrap_async client =
      if has_path "aio" "models" client
      then wrap_stream
          (wrap_method (by_kind b.traced) ("aio" ∷ "models" ∷ []) "generate_content" client)
      else some client

  abbrev wrap_sync : Option (Attrs F) → Option (Attrs F)
  wrap_sync none = none
  wrap_sync (some client) =
      if has_path "models" "generate_content" client
      then wrap_method (by_factory b.stub) ("models" ∷ []) "generate_content" client
      else some client

  unfoldable pub instrument_google : Attrs F → Option (Attrs F)
  instrument_google client = wrap_sync (wrap_async client)
