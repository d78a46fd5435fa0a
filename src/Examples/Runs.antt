-- ===== src/Examples/Runs.antt =====
-- Runs of the whole model, after the repository's own tests.
use custom_memory_allocator.Base.{ℕ, ◌≡◌, refl, List, Option, none, some}
use custom_memory_allocator.Run.{OsRegion, Outcome, done, Cmd, pure, ◌>>=◌}
use custom_memory_allocator.Allocator.{
  Stage, initial, my_malloc, my_free, my_realloc, allocator_shutdown, arena_count_for_testing,
  free_list_size_for_testing,
}
use custom_memory_allocator.Examples.Running.{running}
use custom_memory_allocator.Examples.Machine.{machine, start}

abbrev result : {A : Type 0} → Outcome A → Option A
result (done a w) = some a
result _ = none

abbrev mapped_after : {A : Type 0} → Outcome A → Option (List OsRegion)
mapped_after (done a w) = some w.process.mapped
mapped_after _ = none

-- Three blocks, freed so that the last free coalesces on both sides; the merged block serves a
-- request that none of the three could.
coalesce_run : Cmd (ℕ × ℕ × ℕ × ℕ)
coalesce_run = do
  (x, a) ← my_malloc machine Stage.thread_cached initial 5000
  (y, a) ← my_malloc machine Stage.thread_cached a 6000
  (z, a) ← my_malloc machine Stage.thread_cached a 7000
  a ← my_free machine Stage.thread_cached a x
  a ← my_free machine Stage.thread_cached a z
  n ← free_list_size_for_testing a
  a ← my_free machine Stage.thread_cached a y
  m ← free_list_size_for_testing a
  (v, a) ← my_malloc machine Stage.thread_cached a 18000
  pure (x, n, m, v)

coalesce_out : result (coalesce_run start) ≡ some (0x10_0010, 2, 1, 0x10_0010)
unfolding coalesce_run running
coalesce_out = refl

-- A freed slot is the next one that is handed out, and growing a pooled allocation moves it.
reuse_run : Cmd (ℕ × ℕ × ℕ × ℕ)
reuse_run = do
  (x, a) ← my_malloc machine Stage.per_pool initial 16
  (y, a) ← my_malloc machine Stage.per_pool a 16
  a ← my_free machine Stage.per_pool a x
  (z, a) ← my_malloc machine Stage.per_pool a 10
  (v, a) ← my_realloc machine Stage.per_pool a z 5000
  pure (x, y, z, v)

reuse_out : result (reuse_run start) ≡ some (0x10_1ff0, 0x10_1fd0, 0x10_1ff0, 0x10_2010)
unfolding reuse_run running
reuse_out = refl

-- After a shutdown nothing stays mapped.
shutdown_run : Cmd (ℕ × ℕ)
shutdown_run = do
  (x, a) ← my_malloc machine Stage.thread_cached initial 5000
  (y, a) ← my_malloc machine Stage.thread_cached a 16
  a ← allocator_shutdown machine a
  pure (x, arena_count_for_testing a)

shutdown_out : mapped_after (shutdown_run start) ≡ some (start.process.mapped)
unfolding shutdown_run running
shutdown_out = refl
