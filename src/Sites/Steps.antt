-- ===== src/Sites/Steps.antt =====
-- What an operation does to the site that it works on, and to the payloads of all of them.
use custom_memory_allocator.Base.{ℕ, ◌+◌, ◌≤◌, ◌<◌, ◌≡◌, ◌≢◌, ◌⊎◌, inl, inr, sym, subst, arith}
use custom_memory_allocator.Run.{World}
use custom_memory_allocator.Os.{Platform}
use custom_memory_allocator.Sites.{Site, IsSound, IsLocal, Holds, IsBack, Disjoint}
use custom_memory_allocator.Sites.Family.{
  AreSound, AreApart, update, update_here, update_other, update_cases, other_payload,
  sites_Disjoint, update-AreSound, update-AreApart,
}

-- The site has the same payloads in hand, and they hold the same bytes.
pub record Unmoved (p : Platform) (w : World) (s s' : Site) (w' : World) : Type 0 where
  pub sound : IsSound p w' s'
  pub local : IsLocal s s' w w'
  pub kept : (q m : ℕ) → Holds s q m → Holds s' q m
  pub only : (q m : ℕ) → Holds s' q m → Holds s q m
  pub same : (q m x : ℕ) → Holds s q m → q ≤ x → x < q + m → w'.mem x ≡ w.mem x

-- It has one more, apart from the others.
pub record Grown (p : Platform) (w : World) (s s' : Site) (w' : World) (ptr n : ℕ) : Type 0 where
  pub sound : IsSound p w' s'
  pub local : IsLocal s s' w w'
  pub new : Holds s' ptr n
  pub kept : (q m : ℕ) → Holds s q m → Holds s' q m
  pub only : (q m : ℕ) → Holds s' q m → ((q ≡ ptr) × (m ≡ n)) ⊎ Holds s q m
  pub fresh : (q m : ℕ) → Holds s q m → Disjoint q m ptr n
  pub same : (q m x : ℕ) → Holds s q m → q ≤ x → x < q + m → w'.mem x ≡ w.mem x

-- It has one less, and what that one held is the site's to hand out again.
pub record Shrunk (p : Platform) (w : World) (s s' : Site) (w' : World) (ptr n : ℕ) : Type 0 where
  pub sound : IsSound p w' s'
  pub local : IsLocal s s' w w'
  pub kept : (q m : ℕ) → Holds s q m → ((q ≡ ptr) × (m ≡ n)) ⊎ Holds s' q m
  pub only : (q m : ℕ) → Holds s' q m → Holds s q m
  pub gone : Holds s' ptr n → ⊥
  pub back : IsBack s' ptr n
  pub same : (q m x : ℕ) → Holds s' q m → q ≤ x → x < q + m → w'.mem x ≡ w.mem x

-- One has another size, and all that were in hand hold the same bytes.
pub record Regrown (p : Platform) (w : World) (s s' : Site) (w' : World) (ptr n n' : ℕ)
    : Type 0 where
  pub sound : IsSound p w' s'
  pub local : IsLocal s s' w w'
  pub new : Holds s' ptr n'
  pub kept : (q m : ℕ) → Holds s q m → ((q ≡ ptr) × (m ≡ n)) ⊎ Holds s' q m
  pub only : (q m : ℕ) → Holds s' q m → ((q ≡ ptr) × (m ≡ n')) ⊎ Holds s q m
  pub same : (q m x : ℕ) → Holds s q m → q ≤ x → x < q + m → w'.mem x ≡ w.mem x

-- The `n` bytes are a payload of one of the sites.
abbrev pub InHand : (ℕ → Site) → (ptr n : ℕ) → Type 0
InHand f ptr n = (i : ℕ) × (i < 10) × Holds (f i) ptr n

-- The payload that one site of the family had handed out is that site's again in the other family.
abbrev pub IsReturned : (ℕ → Site) → (ℕ → Site) → (ptr n : ℕ) → Type 0
IsReturned f f' ptr n = (i : ℕ) × (i < 10) × Holds (f i) ptr n × IsBack (f' i) ptr n

abbrev pub SameBytes : World → World → (ptr n : ℕ) → Type 0
SameBytes w w' ptr n = (x : ℕ) → ptr ≤ x → x < ptr + n → w'.mem x ≡ w.mem x

module _ (f : ℕ → Site) (i : ℕ) (s' : Site) where
  -- The payloads of a family in which one site has changed.
  InHand-update :
      (q m : ℕ)
      → InHand (update f i s') q m
      → Holds s' q m ⊎ ((j : ℕ) × (j < 10) × (j ≢ i) × Holds (f j) q m)
  InHand-update q m (j, lt, held) = elim (update_cases f i j s') [
    | inl (_, e) ↦ inl (subst (λ s. Holds s q m) e held)
    | inr (ne, e) ↦ inr (j, lt, ne, subst (λ s. Holds s q m) e held)
  ]

  update-InHand_here : i < 10 → (q m : ℕ) → Holds s' q m → InHand (update f i s') q m
  update-InHand_here at q m held = (i, at, subst (λ s. Holds s q m) (sym (update_here f i s')) held)

  update-InHand_other : (j q m : ℕ) → j < 10 → j ≢ i → Holds (f j) q m → InHand (update f i s') q m
  update-InHand_other j q m lt ne held =
      (j, lt, subst (λ s. Holds s q m) (sym (update_other f i j s' ne)) held)

-- Where a payload was before a change of the `i`-th site.
InHand-cases :
    (f : ℕ → Site) (i q m : ℕ)
    → InHand f q m
    → Holds (f i) q m ⊎ ((j : ℕ) × (j < 10) × (j ≢ i) × Holds (f j) q m)
InHand-cases f i q m (j, lt, held) = elim (update_cases f i j (f i)) [
  | inl (e, _) ↦ inl (subst (λ k. Holds (f k) q m) e held)
  | inr (ne, _) ↦ inr (j, lt, ne, held)
]

module _ (p : Platform) (f : ℕ → Site) (i : ℕ) (s' : Site) (w w' : World) (at : i < 10)
    (sounds : AreSound p w f) (aparts : AreApart f) where
  elsewhere :
      (j q m : ℕ) → IsLocal (f i) s' w w' → j < 10 → j ≢ i → Holds (f j) q m → SameBytes w w' q m
  elsewhere j q m local lt ne held x lo hi =
      other_payload p (f i) s' w w' local (f j) (aparts i j at lt (λ h. ne (sym h))) (sounds j lt) q
        m x held lo hi

  -- The payloads in hand stay in hand and hold the same bytes, and there are no others.
  pub family_Unmoved :
      Unmoved p w (f i) s' w'
      → ((q m : ℕ) → InHand f q m → InHand (update f i s') q m × SameBytes w w' q m)
        × ((q m : ℕ) → InHand (update f i s') q m → InHand f q m)
  family_Unmoved u = (
    λ q m h. elim (InHand-cases f i q m h) [
      | inl held ↦
          (update-InHand_here f i s' at q m (u.kept q m held), λ x lo hi. u.same q m x held lo hi)
      | inr (j, lt, ne, held) ↦
          (update-InHand_other f i s' j q m lt ne held, elsewhere j q m u.local lt ne held)
    ],
    λ q m h. elim (InHand-update f i s' q m h) [
      | inl held ↦ (i, at, u.only q m held)
      | inr (j, lt, ne, held) ↦ (j, lt, held)
    ],
  )

  -- There is one more, which has no byte in common with another.
  pub family_Grown :
      (ptr n : ℕ)
      → Grown p w (f i) s' w' ptr n
      → InHand (update f i s') ptr n
        × ((q m : ℕ)
            → InHand f q m
            → InHand (update f i s') q m × SameBytes w w' q m × Disjoint q m ptr n)
        × ((q m : ℕ) → InHand (update f i s') q m → ((q ≡ ptr) × (m ≡ n)) ⊎ InHand f q m)
  family_Grown ptr n g = (
    update-InHand_here f i s' at ptr n g.new,
    λ q m h. elim (InHand-cases f i q m h) [
      | inl held ↦ (
        update-InHand_here f i s' at q m (g.kept q m held),
        λ x lo hi. g.same q m x held lo hi,
        g.fresh q m held,
      )
      | inr (j, lt, ne, held) ↦ (
        update-InHand_other f i s' j q m lt ne held,
        elsewhere j q m g.local lt ne held,
        apart_new j q m lt ne held,
      )
    ],
    λ q m h. elim (InHand-update f i s' q m h) [
      | inl held ↦ elim (g.only q m held) [ inl e ↦ inl e | inr old ↦ inr (i, at, old) ]
      | inr (j, lt, ne, held) ↦ inr (j, lt, held)
    ],
  )
    where
      apart_new : (j q m : ℕ) → j < 10 → j ≢ i → Holds (f j) q m → Disjoint q m ptr n
      apart_new j q m lt ne held =
          let sounds' = update-AreSound p f i s' w w' at sounds aparts g.local g.sound in
          let aparts' = update-AreApart p f i s' w w' at sounds aparts g.local in
          let here = update_here f i s' in
          let there = update_other f i j s' ne in
          sites_Disjoint p w' (update f i s' j) (update f i s' i) q m ptr n (aparts' j i lt at ne)
            (sounds' j lt) (sounds' i at) (subst (λ s. Holds s q m) (sym there) held)
            (subst (λ s. Holds s ptr n) (sym here) g.new)

  -- There is one less.
  pub family_Shrunk :
      (ptr n : ℕ)
      → 0 < n
      → Holds (f i) ptr n
      → Shrunk p w (f i) s' w' ptr n
      → ((q m : ℕ)
          → InHand f q m
          → ((q ≡ ptr) × (m ≡ n)) ⊎ (InHand (update f i s') q m × SameBytes w w' q m))
        × ((q m : ℕ) → InHand (update f i s') q m → InHand f q m)
        × (InHand (update f i s') ptr n → ⊥)
        × IsReturned f (update f i s') ptr n
  family_Shrunk ptr n pos here g = (
    λ q m h. elim (InHand-cases f i q m h) [
      | inl held ↦ elim (g.kept q m held) [
        | inl e ↦ inl e
        | inr still ↦
            inr (update-InHand_here f i s' at q m still, λ x lo hi. g.same q m x still lo hi)
      ]
      | inr (j, lt, ne, held) ↦
          inr (update-InHand_other f i s' j q m lt ne held, elsewhere j q m g.local lt ne held)
    ],
    λ q m h. elim (InHand-update f i s' q m h) [
      | inl held ↦ (i, at, g.only q m held)
      | inr (j, lt, ne, held) ↦ (j, lt, held)
    ],
    λ h. elim (InHand-update f i s' ptr n h) [
      | inl held ↦ g.gone held
      | inr (j, lt, ne, held) ↦
          sites_Disjoint p w (f j) (f i) ptr n ptr n (aparts j i lt at ne) (sounds j lt)
            (sounds i at) held here ptr (omega arith) (omega (arith, pos)) (omega arith)
            (omega (arith, pos))
    ],
    (i, at, here, subst (λ s. IsBack s ptr n) (sym (update_here f i s')) g.back),
  )

  -- One has another size.
  pub family_Regrown :
      (ptr n n' : ℕ)
      → Regrown p w (f i) s' w' ptr n n'
      → InHand (update f i s') ptr n'
        × ((q m : ℕ)
            → InHand f q m
            → SameBytes w w' q m × (((q ≡ ptr) × (m ≡ n)) ⊎ InHand (update f i s') q m))
        × ((q m : ℕ) → InHand (update f i s') q m → ((q ≡ ptr) × (m ≡ n')) ⊎ InHand f q m)
  family_Regrown ptr n n' g = (
    update-InHand_here f i s' at ptr n' g.new,
    λ q m h. elim (InHand-cases f i q m h) [
      | inl held ↦ (
        λ x lo hi. g.same q m x held lo hi,
        elim (g.kept q m held) [
          | inl e ↦ inl e
          | inr still ↦ inr (update-InHand_here f i s' at q m still)
        ],
      )
      | inr (j, lt, ne, held) ↦
          (elsewhere j q m g.local lt ne held, inr (update-InHand_other f i s' j q m lt ne held))
    ],
    λ q m h. elim (InHand-update f i s' q m h) [
      | inl held ↦ elim (g.only q m held) [ inl e ↦ inl e | inr old ↦ inr (i, at, old) ]
      | inr (j, lt, ne, held) ↦ inr (j, lt, held)
    ],
  )
