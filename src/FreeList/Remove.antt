-- ===== src/FreeList/Remove.antt =====
-- FreeList::remove takes a block out, wherever it stands.
use custom_memory_allocator.Base.{
  ℕ, ◌+◌, ◌<◌, ◌^◌, ◌≡◌, refl, sym, ◌∙◌, inl, inr, false, null, List, [], ◌∷◌, ◌++◌, arith, All,
  All-left, All-right, All-map, AllSpaced-drop, AllSpaced-left, AllSpaced-right, AllSpaced-cross,
  head_or, last_or, last_or-snoc, head_or-append, snoc_cases, ◌==◌, ==_of_ne,
}
use custom_memory_allocator.Memory.{Memory, write_word}
use custom_memory_allocator.Run.{World, done}
use custom_memory_allocator.Run.Ends.{Ends, ends, Ends-continue}
use custom_memory_allocator.FreeList.{FreeList, remove, unlink_before, unlink_after}
use custom_memory_allocator.FreeList.Links.{
  links_done, check_done, IsNode-set_next, IsNode-set_prev, IsNode-frame, Links, Links-frame,
  Links-append, Links-split, Clear, Apart, IsFreeList, OutsideOf, SameOutside, SameNode,
  SameNode-write, SameNode-write-All, SameNode-trans-All, links-write_outside,
}

Links-head_fits :
    (m : Memory) (prev : ℕ) (ys : List ℕ) → Links m prev null ys → head_or null ys < 2 ^ 64
Links-head_fits m prev [] l = omega arith
Links-head_fits m prev (y ∷ ys) l = l.0.fits

Links-last_fits :
    (m : Memory) (prev stop : ℕ) (xs : List ℕ)
    → prev < 2 ^ 64
    → Links m prev stop xs
    → last_or prev xs < 2 ^ 64
Links-last_fits m prev stop [] fits l = fits
Links-last_fits m prev stop (x ∷ xs) fits l = Links-last_fits m x stop xs l.0.fits l.1

-- Setting `next` of the node before a gap, or the head if there is none, closes the gap forwards.
-- The other nodes stay as they are.
record Relinked (w : World) (xs : List ℕ) (next : ℕ) (list : FreeList) (w' : World) : Type 0 where
  head : list.head ≡ head_or next xs
  links : Links w'.mem null next xs
  spared : (y : ℕ) → All (Clear y) xs → SameNode w.mem w'.mem y
  outside : SameOutside xs w.mem w'.mem
  process : w'.process ≡ w.process

unlink_before-snoc :
    (w : World) (list : FreeList) (ys : List ℕ) (z old next : ℕ)
    → list.head ≡ head_or old (ys ++ z ∷ [])
    → next < 2 ^ 64
    → Links w.mem null old (ys ++ z ∷ [])
    → Apart (ys ++ z ∷ [])
    → Ends
        (Relinked w (ys ++ z ∷ []) next)
        (unlink_before list (last_or null (ys ++ z ∷ [])) next w)
unfolding unlink_before
unlink_before-snoc w list ys z old next h fits l a =
    let m' = write_word w.mem (z + 16) next in
    let clear : All (Clear z) ys = All-left (Clear z) ys [] (AllSpaced-drop 32 ys z [] a).0 in
    let (front, (node, _)) = Links-split w.mem null old ys (z ∷ []) l in
    let nonnull : (z == 0) ≡ false = ==_of_ne z 0 (omega (arith, node.pos)) in
    let front' : Links m' null z ys =
      Links-frame w.mem m' null z ys
        (SameNode-write-All w.mem z _ next ys clear (omega arith) (omega arith)) front in
    rw (last_or-snoc null ys z, nonnull, links_done z w node.free)
      (ends (record {
        head = h ∙ head_or-append old ys (z ∷ []) ∙ sym (head_or-append next ys (z ∷ []));
        links = Links-append m' null next ys (z ∷ []) front' (IsNode-set_next node next fits, tt);
        spared = λ y c.
            let (back, _) = All-right (Clear y) ys (z ∷ []) c in
            SameNode-write w.mem z _ next y (ground arith) (omega arith) (omega arith);
        outside = λ b out.
            let (off, _) = All-right (OutsideOf b) ys (z ∷ []) out in
            links-write_outside w.mem z _ next b (omega arith) (omega arith) off;
        process = refl;
      }))

unlink_before-Ends :
    (w : World) (list : FreeList) (xs : List ℕ) (old next : ℕ)
    → list.head ≡ head_or old xs
    → next < 2 ^ 64
    → Links w.mem null old xs
    → Apart xs
    → Ends (Relinked w xs next) (unlink_before list (last_or null xs) next w)
unfolding unlink_before
unlink_before-Ends w list xs old next h fits l a = elim (snoc_cases xs) [
  | inl e ↦ rw e (
      ends (record {
        head = refl;
        links = tt;
        spared = λ y c. (refl, refl, refl);
        outside = λ b out. refl;
        process = refl;
      }))
  | inr (ys, z, e) ↦
      rw e (unlink_before-snoc w list ys z old next (rw e at h) fits (rw e at l) (rw e at a))
]

-- Setting `prev` of the node behind the gap, if there is one, closes it backwards.
record Rejoined (w : World) (prev : ℕ) (xs : List ℕ) (w' : World) : Type 0 where
  links : Links w'.mem prev null xs
  spared : (y : ℕ) → All (Clear y) xs → SameNode w.mem w'.mem y
  outside : SameOutside xs w.mem w'.mem
  process : w'.process ≡ w.process

unlink_after-Ends :
    (w : World) (xs : List ℕ) (old prev : ℕ)
    → prev < 2 ^ 64
    → Links w.mem old null xs
    → Apart xs
    → Ends (λ _. Rejoined w prev xs) (unlink_after prev (head_or null xs) w)
unfolding unlink_after
unlink_after-Ends w [] old prev fits l a = ends (record {
  links = tt;
  spared = λ y c. (refl, refl, refl);
  outside = λ b out. refl;
  process = refl;
})
unlink_after-Ends w (x ∷ xs) old prev fits l a =
    let nonnull : (x == 0) ≡ false = ==_of_ne x 0 (omega (arith, l.0.pos)) in
    rw (nonnull, links_done x w l.0.free)
      (ends (record {
        links = (
          IsNode-set_prev l.0 prev fits,
          Links-frame w.mem _ x null xs
              (SameNode-write-All w.mem x _ prev xs a.0 (omega arith) (omega arith)) l.1,
        );
        spared = λ y c.
            SameNode-write w.mem x _ prev y (ground (arith, c.0)) (omega arith) (omega arith);
        outside = λ b out. links-write_outside w.mem x _ prev b (omega arith) (omega arith) out.0;
        process = refl;
      }))

-- What remove leaves of a list `xs ++ b ∷ ys`.
pub record Removed (w : World) (xs : List ℕ) (b : ℕ) (ys : List ℕ) (list' : FreeList) (w' : World)
    : Type 0 where
  pub list : IsFreeList w'.mem list' (xs ++ ys)
  pub outside : SameOutside (xs ++ b ∷ ys) w.mem w'.mem
  pub process : w'.process ≡ w.process

-- The two blocks of facts survive the final writes to the links of the block that left.
cleared-Links-Ends :
    (w w2 : World) (list : FreeList) (xs : List ℕ) (b : ℕ) (ys : List ℕ)
    → list.head ≡ head_or null (xs ++ ys)
    → Links w2.mem null null (xs ++ ys)
    → All (Clear b) (xs ++ ys)
    → Apart (xs ++ ys)
    → SameOutside (xs ++ b ∷ ys) w.mem w2.mem
    → w2.process ≡ w.process
    → Ends
        (Removed w xs b ys)
        (done list (record w2 { mem = write_word (write_word w2.mem (b + 16) 0) (b + 16 + 8) 0 }))
cleared-Links-Ends w w2 list xs b ys h l clear a same process =
    let m3 = write_word w2.mem (b + 16) 0 in
    let m4 = write_word m3 (b + 16 + 8) 0 in
    let kept : All (SameNode w2.mem m4) (xs ++ ys) =
      SameNode-trans-All w2.mem m3 m4 (xs ++ ys)
        (SameNode-write-All w2.mem b _ 0 (xs ++ ys) clear (omega arith) (omega arith))
        (SameNode-write-All m3 b _ 0 (xs ++ ys) clear (omega arith) (omega arith)) in
    ends (record {
      list = record {
        head = h;
        links = Links-frame w2.mem m4 null null (xs ++ ys) kept l;
        apart = a;
      };
      outside = λ c out.
          let (off, _) = All-right (OutsideOf c) xs (b ∷ ys) out in
          links-write_outside m3 b _ 0 c (omega arith) (omega arith) off
          ∙ links-write_outside w2.mem b _ 0 c (omega arith) (omega arith) off
          ∙ same c out;
      process = process;
    })

-- remove takes a listed block out of the list, wherever it stands, and keeps the order of the
-- others; it fails no assertion and writes only into the links of the listed blocks.
pub remove-erase :
    (w : World) (list : FreeList) (xs : List ℕ) (b : ℕ) (ys : List ℕ)
    → IsFreeList w.mem list (xs ++ b ∷ ys)
    → Ends (Removed w xs b ys) (remove list b w)
unfolding remove
remove-erase w list xs b ys l =
    let (front, (node, back)) = Links-split w.mem null null xs (b ∷ ys) l.links in
    let (clear, apart) = AllSpaced-drop 32 xs b ys l.apart in
    let apart_xs : Apart xs = AllSpaced-left 32 xs ys apart in
    let apart_ys : Apart ys = AllSpaced-right 32 xs ys apart in
    let clear_xs : All (Clear b) xs = All-left (Clear b) xs ys clear in
    let clear_ys : All (Clear b) ys = All-right (Clear b) xs ys clear in
    let next_fits : head_or null ys < 2 ^ 64 = Links-head_fits w.mem b ys back in
    let prev_fits : last_or null xs < 2 ^ 64 =
      Links-last_fits w.mem null b xs (omega arith) front in
    rw (check_done b w node.free node.pos, links_done b w node.free, node.prev_link, node.next_link)
      (Ends-continue
        (unlink_before-Ends w list xs b (head_or null ys) (l.head ∙ head_or-append null xs (b ∷ ys))
          next_fits front apart_xs)
        λ list1 w1 r1.
          let node1 = IsNode-frame w1.mem (r1.spared b clear_xs) node in
          let (over_ys, over_xs) = AllSpaced-cross 32 xs ys apart in
          let back1 : Links w1.mem b null ys =
            Links-frame w.mem w1.mem b null ys
              (All-map (λ y. All (Clear y) xs) (SameNode w.mem w1.mem) ys r1.spared over_ys) back in
          rw (node1.next_link, node1.prev_link)
            (Ends-continue (unlink_after-Ends w1 ys b (last_or null xs) prev_fits back1 apart_ys)
              λ _ w2 r2.
                let front2 : Links w2.mem null (head_or null ys) xs =
                  Links-frame w1.mem w2.mem null _ xs
                    (All-map (λ x. All (Clear x) ys) (SameNode w1.mem w2.mem) xs r2.spared over_xs)
                    r1.links in
                cleared-Links-Ends w w2 list1 xs b ys (r1.head ∙ sym (head_or-append null xs ys))
                  (Links-append w2.mem null null xs ys front2 r2.links) clear apart
                  (λ c out.
                    r2.outside c (All-right (OutsideOf c) xs (b ∷ ys) out).1
                    ∙ r1.outside c (All-left (OutsideOf c) xs (b ∷ ys) out))
                  (r2.process ∙ r1.process)))
