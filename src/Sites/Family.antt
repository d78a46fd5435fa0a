-- ===== src/Sites/Family.antt =====
-- When one site of a family changes, the others stay sound and apart from it.
use custom_memory_allocator.Base.{
  ℕ, ◌+◌, ◌≤◌, ◌<◌, ◌≡◌, ◌≢◌, ◌⊎◌, inl, inr, sym, ap, ◌∙◌, refl, subst, true, false, ◌==◌,
  Bool-cases, eq_of_==, ne_of_==, ==_of_eq, ==_of_ne,
}
use custom_memory_allocator.Run.{World}
use custom_memory_allocator.Os.{Platform}
use custom_memory_allocator.Sites.{Site, OffSite, IsSound, SiteApart, IsLocal, Holds, Disjoint}
use custom_memory_allocator.Sites.Keep.{site_bytes, IsSound-keep}
use custom_memory_allocator.Sites.Payloads.{payload_inside}

abbrev pub AreSound : Platform → World → (ℕ → Site) → Type 0
AreSound p w f = (i : ℕ) → i < 10 → IsSound p w (f i)

abbrev pub AreApart : (ℕ → Site) → Type 0
AreApart f = (i j : ℕ) → i < 10 → j < 10 → i ≢ j → SiteApart (f i) (f j)

-- Another site in place of the `i`-th.
unfoldable pub update : (ℕ → Site) → ℕ → Site → ℕ → Site
update f i s j = elim (j == i) [ true ↦ s | false ↦ f j ]

pub update_here : (f : ℕ → Site) (i : ℕ) (s : Site) → update f i s i ≡ s
unfolding update
update_here f i s = let e = ==_of_eq i i refl in rw (update, e) refl

pub update_other : (f : ℕ → Site) (i j : ℕ) (s : Site) → j ≢ i → update f i s j ≡ f j
unfolding update
update_other f i j s ne = let e = ==_of_ne j i ne in rw (update, e) refl

pub update_cases :
    (f : ℕ → Site) (i j : ℕ) (s : Site)
    → ((j ≡ i) × (update f i s j ≡ s)) ⊎ ((j ≢ i) × (update f i s j ≡ f j))
update_cases f i j s = elim (Bool-cases (j == i)) [
  | inl e ↦
      let same = eq_of_== j i e in inl (same, ap (λ k. update f i s k) same ∙ update_here f i s)
  | inr e ↦ let ne = ne_of_== j i e in inr (ne, update_other f i j s ne)
]

SiteApart-sym : (s t : Site) → SiteApart s t → SiteApart t s
SiteApart-sym s t apart x = elim (apart x) [ inl h ↦ inr h | inr h ↦ inl h ]

module _ (p : Platform) (s s' : Site) (w w' : World) (local : IsLocal s s' w w') where
  -- The bytes of another site keep their values, and the changed site has taken none.
  other_bytes :
      (t : Site)
      → SiteApart s t
      → IsSound p w t
      → (x : ℕ) → OffSite t x ⊎ ((w'.mem x ≡ w.mem x) × OffSite s' x)
  other_bytes t apart sound x = elim (site_bytes p w t x sound) [
    | inl off ↦ inl off
    | inr m ↦ elim (apart x) [ inr off ↦ inl off | inl off ↦ inr (local.bytes x m off) ]
  ]

  other_IsSound : (t : Site) → SiteApart s t → IsSound p w t → IsSound p w' t
  other_IsSound t apart sound =
      IsSound-keep w w' local.regions p t
        (λ x. elim (other_bytes t apart sound x) [ inl off ↦ inl off | inr h ↦ inr h.0 ]) sound

  other_SiteApart : (t : Site) → SiteApart s t → IsSound p w t → SiteApart s' t
  other_SiteApart t apart sound x = elim (other_bytes t apart sound x) [
    | inl off ↦ inr off
    | inr h ↦ inl h.1
  ]

  -- So do the payloads that another site has handed out.
  pub other_payload :
      (t : Site)
      → SiteApart s t
      → IsSound p w t
      → (ptr n x : ℕ) → Holds t ptr n
      → ptr ≤ x
      → x < ptr + n
      → w'.mem x ≡ w.mem x
  other_payload t apart sound ptr n x held lo hi = elim (other_bytes t apart sound x) [
    | inl off ↦ absurd (payload_inside p w t ptr n x sound held lo hi off)
    | inr h ↦ h.0
  ]

module _ (p : Platform) (f : ℕ → Site) (i : ℕ) (s' : Site) (w w' : World) (at : i < 10)
    (sounds : AreSound p w f) (aparts : AreApart f) (local : IsLocal (f i) s' w w') where
  pub update-AreSound : IsSound p w' s' → AreSound p w' (update f i s')
  update-AreSound sound j lt = elim (update_cases f i j s') [
    | inl (same, e) ↦ subst (IsSound p w') (sym e) sound
    | inr (ne, e) ↦ subst (IsSound p w') (sym e) (
        other_IsSound p (f i) s' w w' local (f j) (aparts i j at lt (λ h. ne (sym h)))
          (sounds j lt))
  ]

  here_SiteApart : (j : ℕ) → j < 10 → j ≢ i → SiteApart s' (f j)
  here_SiteApart j lt ne =
      other_SiteApart p (f i) s' w w' local (f j) (aparts i j at lt (λ h. ne (sym h))) (sounds j lt)

  pub update-AreApart : AreApart (update f i s')
  update-AreApart j k ltj ltk ne = elim (update_cases f i j s') [
    | inl (same, e) ↦ elim (update_cases f i k s') [
      | inl (same', _) ↦ absurd (ne (same ∙ sym same'))
      | inr (ne', e') ↦ rw (e, e') (here_SiteApart k ltk ne')
    ]
    | inr (ne', e) ↦ elim (update_cases f i k s') [
      | inl (_, e') ↦ rw (e, e') (SiteApart-sym s' (f j) (here_SiteApart j ltj ne'))
      | inr (_, e') ↦ rw (e, e') (aparts j k ltj ltk ne)
    ]
  ]

-- Payloads of two sites have no byte in common.
pub sites_Disjoint :
    (p : Platform) (w : World) (s t : Site) (ptr n ptr' n' : ℕ)
    → SiteApart s t
    → IsSound p w s
    → IsSound p w t
    → Holds s ptr n
    → Holds t ptr' n'
    → Disjoint ptr n ptr' n'
sites_Disjoint p w s t ptr n ptr' n' apart sound sound' held held' x lo hi lo' hi' =
    elim (apart x) [
      | inl off ↦ payload_inside p w s ptr n x sound held lo hi off
      | inr off ↦ payload_inside p w t ptr' n' x sound' held' lo' hi' off
    ]
