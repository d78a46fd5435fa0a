-- ===== src/Examples/Unmapping.antt =====
-- The munmap of the concrete platform does what is asked of one.
use custom_memory_allocator.Base.{
  ◌≡◌, ◌≢◌, sym, ap, ◌∙◌, inl, inr, refl, List, [], ◌∷◌, true, false, ◌==◌, In, Bool-cases,
  eq_of_==, ==_of_eq,
}
use custom_memory_allocator.Run.{OsRegion}
use custom_memory_allocator.Os.Unmap.{IsUnmapping}
use custom_memory_allocator.Examples.Machine.{machine, without_area, is_area}

same_area : (a b : OsRegion) → a.base ≡ b.base → a.size ≡ b.size → a ≡ b
same_area a b e f = λ i. record { base = e i; size = f i }

area_eq : (a r : OsRegion) → is_area a r.base r.size ≡ true → a ≡ r
area_eq a r h = elim (Bool-cases (a.base == r.base)) [
  | inl e ↦ same_area a r (eq_of_== _ _ e) (eq_of_== _ _ (rw e at h))
  | inr e ↦ cc
]

area_ne : (a r q : OsRegion) → is_area a r.base r.size ≡ false → q ≡ a → q ≢ r
area_ne a r q h same e =
    let at : a ≡ r = sym same ∙ e in
    let b : (a.base == r.base) ≡ true = ==_of_eq _ _ (ap (λ x. x.base) at) in
    let s : (a.size == r.size) ≡ true = ==_of_eq _ _ (ap (λ x. x.size) at) in
    let t : true ≡ false = rw (b, s) at h in cc

without_area-kept :
    (l : List OsRegion) (r q : OsRegion) → In q l → q ≢ r → In q (without_area l r.base r.size)
without_area-kept [] r q i ne = absurd i
without_area-kept (a ∷ as') r q i ne = elim (Bool-cases (is_area a r.base r.size)) [
  | inl e ↦ rw e (elim i [
    | inl same ↦ absurd (ne (same ∙ area_eq a r e))
    | inr later ↦ without_area-kept as' r q later ne
  ])
  | inr e ↦
      rw e (elim i [ inl same ↦ inl same | inr later ↦ inr (without_area-kept as' r q later ne) ])
]

without_area-gone :
    (l : List OsRegion) (r q : OsRegion) → In q (without_area l r.base r.size) → In q l × (q ≢ r)
without_area-gone [] r q i = absurd i
without_area-gone (a ∷ as') r q i = elim (Bool-cases (is_area a r.base r.size)) [
  | inl e ↦ let (at, ne) = without_area-gone as' r q (rw e at i) in (inr at, ne)
  | inr e ↦
      let j : In q (a ∷ without_area as' r.base r.size) = rw e at i in
      elim j [
        | inl same ↦ (inl same, area_ne a r q e same)
        | inr later ↦ let (at, ne) = without_area-gone as' r q later in (inr at, ne)
      ]
]

pub machine-IsUnmapping : IsUnmapping machine
machine-IsUnmapping = record {
  succeeds = λ l r at. refl;
  kept = λ l r q at i ne. without_area-kept l r q i ne;
  gone = λ l r q at i. without_area-gone l r q i;
}
