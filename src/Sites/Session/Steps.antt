-- ===== src/Sites/Session/Steps.antt =====
-- Each step of a program keeps the allocator whole, with the byte arrays of the program in memory.
use custom_memory_allocator.Base.{
  ltb, ltb_of_lt, ltb_of_le, lt_cases, ℕ, ◌+◌, ◌≤◌, ◌<◌, ◌≡◌, ◌≢◌, ◌⊎◌, inl, inr, refl, sym, ◌∙◌,
  subst, Option, none, some, ◌==◌, Bool-cases, eq_of_==, ne_of_==, ==_of_eq, ==_of_ne, arith,
  if◌then◌else◌,
}
use custom_memory_allocator.Run.{World}
use custom_memory_allocator.Os.{Platform}
use custom_memory_allocator.Allocator.{Allocator}
use custom_memory_allocator.Sites.{Site}
use custom_memory_allocator.Sites.Keep.{range_cases}
use custom_memory_allocator.Sites.Steps.{InHand, SameBytes}
use custom_memory_allocator.Sites.Whole.{Refusal, Grant, Release}
use custom_memory_allocator.Sites.Scribble.{scribble-IsWhole, InHand-Disjoint}
use custom_memory_allocator.Sites.Calloc.{InHand-nonnull}
use custom_memory_allocator.Sites.Move.{Resized}
use custom_memory_allocator.Sites.Session.{
  Claim, Claims, put, claimed, resized, set_byte, IsRequest, Backed, Implements,
}

put_cases :
    (h : Claims) (ptr : ℕ) (o : Option Claim) (q : ℕ)
    → ((q ≡ ptr) × (put h ptr o q ≡ o)) ⊎ ((q ≢ ptr) × (put h ptr o q ≡ h q))
put_cases h ptr o q = elim (Bool-cases (q == ptr)) [
  | inl e ↦ inl (eq_of_== q ptr e, rw e refl)
  | inr e ↦ inr (ne_of_== q ptr e, rw e refl)
]

some_injective : {c d : Claim} → some c ≡ some d → c ≡ d
some_injective e = cc

-- A byte array whose payload stays in hand and keeps its bytes.
Backed-kept :
    (p : Platform) (w w' : World) (f f' : ℕ → Site) (q : ℕ) (c : Claim) (b : Backed p w f q c)
    → InHand f' q b.n
    → SameBytes w w' q b.n
    → Backed p w' f' q c
Backed-kept p w w' f f' q c b still bytes =
    let room = b.room in
    record {
      n = b.n;
      in_hand = still;
      room = room;
      small = b.small;
      some_bytes = b.some_bytes;
      same = λ k lt. bytes (q + k) (omega arith) (omega (arith, room, lt)) ∙ b.same k lt;
    }

module _ (p : Platform) (w w' : World) (a : Allocator) (h : Claims) (i : Implements p w a h)
    (out : ℕ × Allocator) where
  pub refused-Implements :
      (c : Claim) {size : ℕ}
      → Refusal p w i.f size out w'
      → Implements p w' out.1 (claimed h out.0 c)
  refused-Implements c {size} r =
      let none_left = ==_of_eq out.0 0 r.pointer in
      rw none_left (record {
        f = r.f';
        whole = r.whole;
        backed = λ q d e.
            let b = i.backed q d e in
            let (still, bytes) = r.kept q b.n b.in_hand in
            Backed-kept p w w' i.f r.f' q d b still bytes;
      })

  pub granted-Implements :
      (c : Claim)
      → IsRequest p c.size
      → Grant p w i.f c.size out w'
      → ((k : ℕ) → k < c.size → w'.mem (out.0 + k) ≡ c.bytes k)
      → Implements p w' out.1 (claimed h out.0 c)
  granted-Implements c (pos, _, small) g same =
      let nonnull = ==_of_ne out.0 0 (InHand-nonnull g.f' out.0 g.n g.new) in
      let snug = g.snug in
      rw nonnull (record {
        f = g.f';
        whole = g.whole;
        backed = λ q d e. elim (put_cases h out.0 (some c) q) [
          | inl (at, now) ↦
              let claim : c ≡ d = some_injective (sym now ∙ e) in
              subst (λ k. Backed p w' g.f' k d) (sym at)
                (subst (λ k. Backed p w' g.f' out.0 k) claim
                  (record {
                    n = g.n;
                    in_hand = g.new;
                    room = g.room;
                    small = omega (arith, snug, small);
                    some_bytes = pos;
                    same = same;
                  }))
          | inr (_, now) ↦
              let b = i.backed q d (sym now ∙ e) in
              let (still, bytes, _) = g.kept q b.n b.in_hand in
              Backed-kept p w w' i.f g.f' q d b still bytes
        ];
      })

pub absent : {c : Claim} → none ≡ some c → ⊥
absent e = cc

pub resized-Implements :
    (p : Platform) (w w' : World) (a : Allocator) (h : Claims) (ptr size : ℕ) (c : Claim)
    (out : ℕ × Allocator) (i : Implements p w a h)
    → (b : Backed p w i.f ptr c) → IsRequest p size
    → Resized p w i.f ptr b.n size out w'
    → Implements p w' out.1 (resized h ptr c out.0 size w'.mem)
resized-Implements p w w' a h ptr size c out i b (pos, _, small) r =
    let nonnull = ==_of_ne out.0 0 (InHand-nonnull r.f' out.0 r.n' r.new) in
    let room = b.room in
    let was_small = b.small in
    let snug = r.snug in
    rw nonnull (record {
      f = r.f';
      whole = r.whole;
      backed = λ q d e. elim (put_cases (put h ptr none) out.0 (some now_claimed) q) [
        | inl (at, now) ↦
            subst (λ k. Backed p w' r.f' k d) (sym at)
              (subst (λ k. Backed p w' r.f' out.0 k) (some_injective (sym now ∙ e))
                (record {
                  n = r.n';
                  in_hand = r.new;
                  room = r.room;
                  small = elim snug [
                    | inl same ↦ omega (arith, same, was_small)
                    | inr le ↦ omega (arith, le, small)
                  ];
                  some_bytes = pos;
                  same = λ k lt. elim (lt_cases k c.size) [
                    | inl old ↦
                        let inside = ltb_of_lt k c.size old in
                        rw inside (r.bytes k (omega (arith, old, room)) lt ∙ b.same k old)
                    | inr fresh ↦ let outside = ltb_of_le k c.size fresh in rw outside refl
                  ];
                }))
        | inr (_, now) ↦ elim (put_cases h ptr none q) [
          | inl (_, gone) ↦ absurd (absent (sym gone ∙ sym now ∙ e))
          | inr (ne, still_there) ↦
              let b' = i.backed q d (sym still_there ∙ sym now ∙ e) in
              elim (r.kept q b'.n b'.in_hand) [
                | inl (same, _) ↦ absurd (ne same)
                | inr (still, bytes) ↦ Backed-kept p w w' i.f r.f' q d b' still bytes
              ]
        ]
      ];
    })
  where
    now_claimed : Claim
    now_claimed = record {
      size = size;
      bytes = λ k. if ltb k c.size then c.bytes k else w'.mem (out.0 + k);
    }

pub unmoved-Implements :
    (p : Platform) (w w' : World) (a : Allocator) (h : Claims) (ptr size : ℕ) (c : Claim)
    (out : ℕ × Allocator) (i : Implements p w a h)
    → Refusal p w i.f size out w'
    → Implements p w' out.1 (resized h ptr c out.0 size w'.mem)
unmoved-Implements p w w' a h ptr size c out i r =
    let none_left = ==_of_eq out.0 0 r.pointer in
    rw none_left (record {
      f = r.f';
      whole = r.whole;
      backed = λ q d e.
          let b = i.backed q d e in
          let (still, bytes) = r.kept q b.n b.in_hand in
          Backed-kept p w w' i.f r.f' q d b still bytes;
    })

pub released-Implements :
    (p : Platform) (w w' : World) (a a' : Allocator) (h : Claims) (ptr n : ℕ)
    (i : Implements p w a h)
    → Release p w i.f ptr n a' w'
    → Implements p w' a' (put h ptr none)
released-Implements p w w' a a' h ptr n i r = record {
  f = r.f';
  whole = r.whole;
  backed = λ q c e. elim (put_cases h ptr none q) [
    | inl (_, now) ↦ absurd (absent (sym now ∙ e))
    | inr (ne, now) ↦
        let b = i.backed q c (sym now ∙ e) in
        elim (r.kept q b.n b.in_hand) [
          | inl (same, _) ↦ absurd (ne same)
          | inr (still, bytes) ↦ Backed-kept p w w' i.f r.f' q c b still bytes
        ]
  ];
}

set_byte_here : (bytes : ℕ → ℕ) (k v : ℕ) → set_byte bytes k v k ≡ v
set_byte_here bytes k v = let e = ==_of_eq k k refl in rw e refl

set_byte_other : (bytes : ℕ → ℕ) (k v j : ℕ) → j ≢ k → set_byte bytes k v j ≡ bytes j
set_byte_other bytes k v j ne = let e = ==_of_ne j k ne in rw e refl

stored_bytes :
    (m bytes : ℕ → ℕ) (ptr k v j : ℕ)
    → m (ptr + j) ≡ bytes j
    → set_byte m (ptr + k) v (ptr + j) ≡ set_byte bytes k v j
stored_bytes m bytes ptr k v j same = elim (Bool-cases (j == k)) [
  | inl e ↦
      let at = eq_of_== j k e in rw at (set_byte_here m (ptr + k) v ∙ sym (set_byte_here bytes k v))
  | inr e ↦
      let ne = ne_of_== j k e in
      set_byte_other m (ptr + k) v (ptr + j) (λ h. ne (omega (arith, h)))
      ∙ same
      ∙ sym (set_byte_other bytes k v j ne)
]

pub stored-Implements :
    (p : Platform) (w : World) (a : Allocator) (h : Claims) (ptr k v : ℕ) (c : Claim)
    → Implements p w a h
    → h ptr ≡ some c
    → k < c.size
    → Implements p
        (record w { mem = set_byte w.mem (ptr + k) v })
        a
        (put h ptr (some (record { size = c.size; bytes = set_byte c.bytes k v })))
stored-Implements p w a h ptr k v c i at lt =
    let w' : World = record w { mem = set_byte w.mem (ptr + k) v } in
    let b = i.backed ptr c at in
    let room = b.room in
    let away : (x : ℕ) → (x < ptr) ⊎ (ptr + b.n ≤ x) → w'.mem x ≡ w.mem x =
      λ x off. set_byte_other w.mem (ptr + k) v x (λ e. omega (arith, off, e, room, lt)) in
    record {
      f = i.f;
      whole = scribble-IsWhole p w w' a i.f ptr b.n i.whole b.in_hand away refl;
      backed = λ q d e. elim (put_cases h ptr (some now_claimed) q) [
        | inl (here, now) ↦
            subst (λ x. Backed p w' i.f x d) (sym here)
              (subst (λ x. Backed p w' i.f ptr x) (some_injective (sym now ∙ e))
                (record {
                  n = b.n;
                  in_hand = b.in_hand;
                  room = room;
                  small = b.small;
                  some_bytes = b.some_bytes;
                  same = λ j ltj. stored_bytes w.mem c.bytes ptr k v j (b.same j ltj);
                }))
        | inr (ne, now) ↦
            let b' = i.backed q d (sym now ∙ e) in
            Backed-kept p w w' i.f i.f q d b' b'.in_hand λ x lo hi.
              elim (InHand-Disjoint p w a i.f ptr b.n q b'.n i.whole b.in_hand b'.in_hand) [
                | inl (same, _) ↦ absurd (ne (sym same))
                | inr apart ↦ elim (range_cases x ptr b.n) [
                  | inl off ↦ away x off
                  | inr (from, upto) ↦ absurd (apart x from upto lo hi)
                ]
              ]
      ];
    }
  where
    now_claimed : Claim
    now_claimed = record { size = c.size; bytes = set_byte c.bytes k v }
