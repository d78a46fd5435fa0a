-- ===== src/Examples/Running.antt =====
-- Everything that the model's commands call, opened at once: a test that runs the whole model says
-- `unfolding running`.
unfoldable pub running : Unit {0}
unfolding custom_memory_allocator.SizeClass.size_class_for
    custom_memory_allocator.Allocator.malloc_large custom_memory_allocator.Run.with_lock
    custom_memory_allocator.General.Blocks.malloc_general
    custom_memory_allocator.FreeList.find_first_fit custom_memory_allocator.General.carved
    custom_memory_allocator.Allocator.initial custom_memory_allocator.General.Blocks.bump
    custom_memory_allocator.General.arena_with_room custom_memory_allocator.Os.os_acquire
    custom_memory_allocator.Os.os_release custom_memory_allocator.General.align_up
    custom_memory_allocator.Os.round_up_to_page custom_memory_allocator.Block.payload
    custom_memory_allocator.Block.is_free custom_memory_allocator.Memory.read_word
    custom_memory_allocator.Memory.write_word custom_memory_allocator.Memory.fill
    custom_memory_allocator.Memory.copy custom_memory_allocator.Allocator.free_large
    custom_memory_allocator.Allocator.free_list_size_for_testing
    custom_memory_allocator.Allocator.free_pooled custom_memory_allocator.Allocator.is_known_pool
    custom_memory_allocator.Allocator.known_from custom_memory_allocator.Allocator.malloc_pooled
    custom_memory_allocator.Allocator.my_malloc custom_memory_allocator.Allocator.my_free
    custom_memory_allocator.Allocator.my_calloc custom_memory_allocator.Allocator.my_realloc
    custom_memory_allocator.Allocator.realloc_pooled custom_memory_allocator.Allocator.realloc_large
    custom_memory_allocator.Allocator.move_to_new
    custom_memory_allocator.Allocator.allocator_shutdown
    custom_memory_allocator.Allocator.my_free_pooled_stage3
    custom_memory_allocator.Allocator.my_malloc_pooled_stage3
    custom_memory_allocator.Allocator.pool_index_of custom_memory_allocator.Block.construct
    custom_memory_allocator.Block.footer custom_memory_allocator.Block.footer_in_sync
    custom_memory_allocator.Block.free_list_links custom_memory_allocator.Block.get_size
    custom_memory_allocator.Block.header_from_footer
    custom_memory_allocator.Block.next_physical_header custom_memory_allocator.Pool.move_slot
    custom_memory_allocator.Block.preceding_footer custom_memory_allocator.Block.set_free
    custom_memory_allocator.Block.set_size custom_memory_allocator.Block.sync_footer
    custom_memory_allocator.FreeList.check_free_block custom_memory_allocator.FreeList.insert
    custom_memory_allocator.FreeList.remove custom_memory_allocator.FreeList.size
    custom_memory_allocator.FreeList.unlink_after custom_memory_allocator.FreeList.unlink_before
    custom_memory_allocator.General.Blocks.absorb_right_neighbor
    custom_memory_allocator.General.Blocks.coalesce_left
    custom_memory_allocator.General.Blocks.coalesce_right
    custom_memory_allocator.General.Blocks.combined_payload_size
    custom_memory_allocator.General.Blocks.free_general
    custom_memory_allocator.General.Blocks.realloc_general
    custom_memory_allocator.General.Blocks.grow_right
    custom_memory_allocator.General.Blocks.maybe_split custom_memory_allocator.General.Blocks.merge
    custom_memory_allocator.General.Blocks.reuse custom_memory_allocator.General.Neighbors.if_free
    custom_memory_allocator.General.Neighbors.left_neighbor_if_free
    custom_memory_allocator.General.Neighbors.right_neighbor_if_free
    custom_memory_allocator.General.arena_owning custom_memory_allocator.General.owner
    custom_memory_allocator.General.release_arenas custom_memory_allocator.Os.page_size
    custom_memory_allocator.Pool.allocate custom_memory_allocator.Pool.allocate_batch
    custom_memory_allocator.Pool.carve custom_memory_allocator.Pool.deallocate
    custom_memory_allocator.Pool.deallocate_batch custom_memory_allocator.Pool.ensure_slot
    custom_memory_allocator.Pool.expand custom_memory_allocator.Pool.gather
    custom_memory_allocator.Pool.join_batch custom_memory_allocator.Pool.new_pool
    custom_memory_allocator.Pool.release_all_arenas
    custom_memory_allocator.SizeClass.pool_index_for_size_class
    custom_memory_allocator.ThreadCache.detach
    custom_memory_allocator.ThreadCache.flush_batch_to_pool
    custom_memory_allocator.ThreadCache.free_cached
    custom_memory_allocator.ThreadCache.malloc_cached
    custom_memory_allocator.ThreadCache.pop_from_cache
running = tt
