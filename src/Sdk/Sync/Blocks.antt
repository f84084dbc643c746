-- ===== src/Sdk/Sync/Blocks.antt =====
-- What the blocks of a `SyncInferenceLogger` do, from the start to the close.
use inferspect.Prelude.{◌≡◌, refl, ap, ◌∙◌, true, false, none, List, [], ◌∷◌}
use inferspect.Sdk.Client.Logger.{Exit, returned}
use inferspect.Sdk.Sync.{
  ended_by, AsyncLogger, SyncLogger, init, start, close, block, with_logger, ended_or, after_enter,
  after_start, then_close,
}

-- A block, by its kind and how its body leaves it; the body does not touch the logger.
abbrev pub Block : Type 0 → Type 0
Block K = K × Exit

module _ {A K : Type 0} (a : AsyncLogger A K) where
  -- Blocks in a row, until one is left by an exception.
  abbrev pub blocks : List (Block K) → SyncLogger A → Exit × SyncLogger A
  blocks [] s = (returned, s)
  blocks ((k, returned) ∷ bs) s = blocks bs (block a k (λ t. (returned, t)) s).1
  blocks ((k, e) ∷ bs) s = (e, (block a k (λ t. (e, t)) s).1)

  -- The same on the async logger alone.
  abbrev pub async_blocks : List (Block K) → A → Exit × A
  async_blocks [] inner = (returned, inner)
  async_blocks ((k, returned) ∷ bs) inner = async_blocks bs (a.exit_block k returned inner)
  async_blocks ((k, e) ∷ bs) inner = (e, a.exit_block k e inner)

  -- A logger that runs, around an async logger.
  abbrev running : A → SyncLogger A
  running inner = record { loop = true; thread = true; started = true; inner = inner }

  abbrev pub stopped : A → SyncLogger A
  stopped inner = record { loop = false; thread = false; started = false; inner = inner }

  blocks_running :
      (bs : List (Block K)) (inner : A)
      → blocks bs (running inner)
        ≡ (let (exit, inner') = async_blocks bs inner in (exit, running inner'))
  unfolding block
  blocks_running [] inner = refl
  blocks_running ((k, returned) ∷ bs) inner = blocks_running bs (a.exit_block k returned inner)
  blocks_running ((k, Exit.interrupted) ∷ bs) inner = refl
  blocks_running ((k, Exit.cancelled e) ∷ bs) inner = refl
  blocks_running ((k, Exit.timed_out e) ∷ bs) inner = refl
  blocks_running ((k, Exit.failed e) ∷ bs) inner = refl

  -- Where the async logger starts, `with logger:` around blocks does to it what the same blocks do
  -- between its own start and close. Afterwards neither the loop nor the thread is left, also if a block
  -- or the close raises, and the caller gets the exception of the close or else that of the block.
  pub with_logger-blocks :
      (bs : List (Block K)) (inner begun : A)
      → a.start inner ≡ (none, begun)
      → let (exit, used) = async_blocks bs begun in
        let (failed, over) = a.close used in
        with_logger a (blocks bs) (init a inner) ≡ (ended_or (ended_by failed) exit, stopped over)
  unfolding with_logger start close init
  with_logger-blocks bs inner begun up =
      ap (λ r. after_enter a (blocks bs) (after_start a r (init a inner))) up
      ∙ ap (λ r. then_close a r.0 (close a r.1)) (blocks_running bs begun)
