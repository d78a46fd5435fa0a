-- ===== src/Pool/Carve.antt =====
-- Pool::expand: the loop that carves a new arena into free slots.
use custom_memory_allocator.Base.{
  ℕ, zero, suc, ◌+◌, ◌*◌, ◌≤◌, ◌<◌, ◌^◌, ◌≡◌, ◌⊎◌, refl, ◌∙◌, inl, null, List, [], ◌∷◌, ◌++◌, arith,
  All, All-map, head_or, Spaced, AllSpaced,
}
use custom_memory_allocator.Memory.{Memory, write_word}
use custom_memory_allocator.Memory.Access.{read_word-write_word, write_word-outside}
use custom_memory_allocator.Run.{World}
use custom_memory_allocator.Run.Ends.{Ends, ends, Ends-weaken}
use custom_memory_allocator.Pool.{carve}
use custom_memory_allocator.Pool.Slots.{Chain, Chain-write}

-- The slots in the order in which the loop leaves them.
abbrev pub carved_slots : ℕ → ℕ → (base total : ℕ) → List ℕ → List ℕ
carved_slots zero i base total acc = acc
carved_slots (suc k) i base total acc = carved_slots k (i + 1) base total ((base + i * total) ∷ acc)

-- The slot has no byte in the range.
abbrev pub Away : ℕ → ℕ → ℕ → ℕ → Type 0
Away total lo hi x = (x + total ≤ lo) ⊎ (hi ≤ x)

module _ (base total : ℕ) where
  pub carved_slots-append :
      (k i : ℕ) (acc ys : List ℕ)
      → carved_slots k i base total acc ++ ys ≡ carved_slots k i base total (acc ++ ys)
  carved_slots-append zero i acc ys = refl
  carved_slots-append (suc k) i acc ys = carved_slots-append k (i + 1) ((base + i * total) ∷ acc) ys

  Away-step :
      (k i : ℕ) (acc : List ℕ)
      → All (Away total (base + i * total) (base + (i + suc k) * total)) acc
      → All
          (Away total (base + (i + 1) * total) (base + (i + 1 + k) * total))
          ((base + i * total) ∷ acc)
  Away-step k i acc away = (inl (omega arith), All-map _ _ acc (λ x a. ground arith) away)

  pub carved_slots-AllSpaced :
      (k i : ℕ) (acc : List ℕ)
      → All (Away total (base + i * total) (base + (i + k) * total)) acc
      → AllSpaced total acc
      → AllSpaced total (carved_slots k i base total acc)
  carved_slots-AllSpaced zero i acc away spaced = spaced
  carved_slots-AllSpaced (suc k) i acc away spaced =
      carved_slots-AllSpaced k (i + 1) _ (Away-step k i acc away)
        (All-map _ (Spaced total (base + i * total)) acc (λ x a. ground arith) away, spaced)

  pub carved_slots-All {κ} :
      (P : ℕ → Type κ) (k i : ℕ) (acc : List ℕ)
      → ((j : ℕ) → i ≤ j → j < i + k → P (base + j * total))
      → All P acc
      → All P (carved_slots k i base total acc)
  carved_slots-All P zero i acc new old = old
  carved_slots-All P (suc k) i acc new old =
      carved_slots-All P k (i + 1) _ (λ j lo hi. new j (omega arith) (omega arith))
        (new i (omega arith) (omega arith), old)

-- What the loop leaves.
pub record IsCarved (w : World) (lo hi : ℕ) (slots : List ℕ) (r : ℕ) (w' : World) : Type 0 where
  pub head : r ≡ head_or null slots
  pub chain : Chain w'.mem null slots
  pub same : (a : ℕ) → (a < lo) ⊎ (hi ≤ a) → w'.mem a ≡ w.mem a
  pub process : w'.process ≡ w.process

Chain-head_fits :
    (m : Memory) (stop : ℕ) (xs : List ℕ)
    → stop < 2 ^ 64
    → Chain m stop xs
    → head_or stop xs < 2 ^ 64
Chain-head_fits m stop [] h c = h
Chain-head_fits m stop (x ∷ xs) h c = c.1

Away-Spaced :
    (total s hi : ℕ) (acc : List ℕ)
    → s + total ≤ hi
    → All (Away total s hi) acc
    → All (Spaced total s) acc
Away-Spaced total s hi acc room away = All-map _ (Spaced total s) acc (λ x a. ground arith) away

module _ (base total : ℕ) (wide : 8 ≤ total) (pos : 0 < base) where
  pub carve-IsCarved :
      (k i : ℕ) (w : World) (acc : List ℕ)
      → base + (i + k) * total ≤ 2 ^ 64
      → All (Away total (base + i * total) (base + (i + k) * total)) acc
      → Chain w.mem null acc
      → Ends
          (IsCarved w (base + i * total) (base + (i + k) * total) (carved_slots k i base total acc))
          (carve k i base total (head_or null acc) w)
  unfolding carve
  carve-IsCarved zero i w acc top away chain =
      ends (record { head = refl; chain = chain; same = λ a out. refl; process = refl })
  carve-IsCarved (suc k) i w acc top away chain =
      let s = base + i * total in
      let w1 : World = record {
        mem = write_word w.mem s (head_or null acc);
        process = w.process;
      } in
      let near = Away-Spaced total s _ acc (omega arith) away in
      let chain1 : Chain w1.mem null (s ∷ acc) = (
        omega arith,
        omega arith,
        read_word-write_word w.mem s _ (Chain-head_fits w.mem null acc (omega arith) chain),
        Chain-write w.mem s (head_or null acc) total wide null acc near chain,
      ) in
      Ends-weaken
        (carve-IsCarved k (i + 1) w1 (s ∷ acc) (omega arith) (Away-step base total k i acc away)
          chain1)
        λ r w' c. record {
          head = c.head;
          chain = c.chain;
          same = λ a out.
              c.same a (omega arith)
              ∙ write_word-outside w.mem s (head_or null acc) a (omega arith);
          process = c.process;
        }
