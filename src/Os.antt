-- ===== src/Os.antt =====
-- include/os_memory.hpp and src/os_memory.cpp, and what the machine gives the program: the page
-- size, the answers of `mmap` and `munmap`, and where the linker put the array of pools. `static
-- const size` in page_size() caches a constant, so the constant stands for it.
pub mod Laws
pub mod Unmap
use custom_memory_allocator.Base.{
  ℕ, ◌-◌, ◌/◌, ◌^◌, List, ◌∷◌, Option, none, some, Bool, add64, sub64, mul64, ◌==◌, if◌then◌else◌,
}
use custom_memory_allocator.Memory.{fill}
use custom_memory_allocator.Run.{OsRegion, World, done, Cmd, pure, ◌>>=◌, ◌>>◌}

pub record Platform : Type 0 where
  -- sysconf(_SC_PAGESIZE)
  pub page_bytes : ℕ
  -- The address that `mmap` answers with to a length, given the areas mapped so far.
  pub mmap : List OsRegion → ℕ → ℕ
  -- Whether `munmap` succeeds, and the areas that stay mapped.
  pub munmap : List OsRegion → ℕ → ℕ → Bool × List OsRegion
  -- &pools()[0] and sizeof(Pool)
  pub pool_array : ℕ
  pub pool_bytes : ℕ

-- MAP_FAILED, which is (void*) -1
abbrev pub map_failed : ℕ
map_failed = 2 ^ 64 - 1

module _ (p : Platform) where
  unfoldable pub page_size : ℕ
  page_size = p.page_bytes

  unfoldable pub round_up_to_page : ℕ → ℕ
  unfolding page_size
  round_up_to_page size = mul64 (sub64 (add64 size page_size) 1 / page_size) page_size

  -- mmap(nullptr, length, PROT_READ | PROT_WRITE, MAP_PRIVATE | MAP_ANONYMOUS, -1, 0): the area is
  -- filled with zeroes.
  abbrev pub map_area : ℕ → ℕ → Cmd (Unit {0})
  map_area addr length w = done tt (record {
    mem = fill w.mem addr 0 length;
    process = record {
      mapped = record { base = addr; size = length } ∷ w.process.mapped;
      held = w.process.held;
    };
  })

  unfoldable pub os_acquire : ℕ → Cmd (Option OsRegion)
  os_acquire size w =
      if size == 0
      then done none w
      else (let rounded = round_up_to_page size in
          let addr = p.mmap w.process.mapped rounded in
          if addr == map_failed
          then done none w
          else (map_area addr rounded >> pure (some (record { base = addr; size = rounded }))) w)

  unfoldable pub os_release : ℕ → ℕ → Cmd Bool
  os_release base size w =
      let (ok, rest) = p.munmap w.process.mapped base size in
      done ok (record w { process = record { mapped = rest; held = w.process.held } })
