-- ===== src/Threads/Members.antt =====
-- The threads with the slots that are their own, as a list.
use mathlib.Core.List.{append_assoc}
use custom_memory_allocator.Base.{
  ℕ, ◌≤◌, ◌≡◌, refl, sym, ap, subst, ◌∙◌, inl, inr, List, [], ◌∷◌, ◌++◌, arith, All, All-of_In, In,
  In-All, In-append_left, In-append_right, length, head_or,
}
use custom_memory_allocator.Memory.{Memory}
use custom_memory_allocator.Run.{World}
use custom_memory_allocator.Pool.{Pool}
use custom_memory_allocator.Pool.Slots.{IsStock}
use custom_memory_allocator.Pool.Spared.{Spared}
use custom_memory_allocator.ThreadCache.Shared.{IsStock-swap}
use custom_memory_allocator.Threads.{Thread}
use custom_memory_allocator.Threads.Share.{Holds, Holds-Spared}

-- A thread and the slots that are its own.
pub record Member : Type 0 where
  pub who : Thread
  pub mine : List ℕ

abbrev pub member : Thread → List ℕ → Member
member who mine = record { who = who; mine = mine }

abbrev pub threads_of : List Member → List Thread
threads_of [] = []
threads_of (mb ∷ ms) = mb.who ∷ threads_of ms

abbrev pub slots_of : List Member → List ℕ
slots_of [] = []
slots_of (mb ∷ ms) = mb.mine ++ slots_of ms

abbrev pub MemberHolds : Memory → Member → Type 0
MemberHolds m mb = Holds m mb.who.cache mb.who.phase mb.mine

pub slots_of-middle :
    (ms : List Member) (mb : Member) (ns : List Member)
    → slots_of (ms ++ mb ∷ ns) ≡ slots_of ms ++ (mb.mine ++ slots_of ns)
slots_of-middle [] mb ns = refl
slots_of-middle (x ∷ ms) mb ns =
    ap (λ l. x.mine ++ l) (slots_of-middle ms mb ns)
    ∙ sym (append_assoc x.mine (slots_of ms) (mb.mine ++ slots_of ns))

pub threads_of-middle :
    (ms : List Member) (mb : Member) (ns : List Member)
    → threads_of (ms ++ mb ∷ ns) ≡ threads_of ms ++ mb.who ∷ threads_of ns
threads_of-middle [] mb ns = refl
threads_of-middle (x ∷ ms) mb ns = ap (λ l. x.who ∷ l) (threads_of-middle ms mb ns)

-- Where the stepping thread stands among the members.
pub record Place (members : List Member) (before : List Thread) (th : Thread) (after : List Thread)
    : Type 0 where
  pub left : List Member
  pub mine : List ℕ
  pub right : List Member
  pub split : members ≡ left ++ member th mine ∷ right
  pub before_same : threads_of left ≡ before
  pub after_same : threads_of right ≡ after

abbrev rest_of : List Thread → List Thread
rest_of [] = []
rest_of (x ∷ xs) = xs

pub place :
    (members : List Member) (before : List Thread) (th : Thread) (after : List Thread)
    → threads_of members ≡ before ++ th ∷ after
    → Place members before th after
place [] [] th after e = absurd (omega (arith, ap length e))
place [] (x ∷ before) th after e = absurd (omega (arith, ap length e))
place (mb ∷ ms) [] th after e = record {
  left = [];
  mine = mb.mine;
  right = ms;
  split = ap (λ (x : Thread). member x mb.mine ∷ ms) (ap (λ l. head_or th l) e);
  before_same = refl;
  after_same = ap rest_of e;
}
place (mb ∷ ms) (x ∷ before) th after e =
    let l = place ms before th after (ap rest_of e) in
    record {
      left = mb ∷ l.left;
      mine = l.mine;
      right = l.right;
      split = ap (λ r. mb ∷ r) l.split;
      before_same =
          ap (λ (y : Thread). y ∷ threads_of l.left) (ap (λ r. head_or th r) e)
          ∙ ap (λ r. x ∷ r) l.before_same;
      after_same = l.after_same;
    }

-- The slots of one thread in front of the live ones and those of the others, and back.
pub to_front :
    (m : Memory) (pool : Pool) (free live ls mine rs : List ℕ)
    → IsStock m pool free (live ++ (ls ++ (mine ++ rs)))
    → IsStock m pool free (mine ++ (live ++ (ls ++ rs)))
to_front m pool free live ls mine rs i =
    subst (λ l. IsStock m pool free (mine ++ l)) (append_assoc live ls rs)
      (IsStock-swap m pool free (live ++ ls) mine rs
        (subst (IsStock m pool free) (sym (append_assoc live ls (mine ++ rs))) i))

pub from_front :
    (m : Memory) (pool : Pool) (free live ls mine rs : List ℕ)
    → IsStock m pool free (mine ++ (live ++ (ls ++ rs)))
    → IsStock m pool free (live ++ (ls ++ (mine ++ rs)))
from_front m pool free live ls mine rs i =
    subst (IsStock m pool free) (append_assoc live ls (mine ++ rs)) (
      IsStock-swap m pool free mine (live ++ ls) rs
        (subst (λ l. IsStock m pool free (mine ++ l)) (sym (append_assoc live ls rs)) i))

In-slots_of :
    (ms : List Member) (mb : Member) (y : ℕ) → In mb ms → In y mb.mine → In y (slots_of ms)
In-slots_of [] mb y i at = absurd i
In-slots_of (x ∷ ms) mb y (inl e) at =
    In-append_left x.mine (slots_of ms) y (subst (λ (b : Member). In y b.mine) e at)
In-slots_of (x ∷ ms) mb y (inr i) at =
    In-append_right x.mine (slots_of ms) y (In-slots_of ms mb y i at)

-- The other threads hold what they held.
pub members_keep :
    (others : List ℕ) (pool pool' : Pool) (w w' : World) (ms : List Member)
    → 8 ≤ pool.slot_total_size
    → Spared others pool w pool' w'
    → ((y : ℕ) → In y (slots_of ms) → In y others)
    → All (MemberHolds w.mem) ms
    → All (MemberHolds w'.mem) ms
members_keep others pool pool' w w' ms wide s sub each = All-of_In (MemberHolds w'.mem) ms λ mb at.
    Holds-Spared others pool pool' w w' mb.who.cache mb.who.phase mb.mine wide s
      (λ y y_at. sub y (In-slots_of ms mb y at y_at)) (In-All (MemberHolds w.mem) ms mb at each)
