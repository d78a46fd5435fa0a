-- ===== src/Threads/Together.antt =====
-- All threads together: each slot has one owner, whatever the order of the steps.
use custom_memory_allocator.Base.{
  ℕ, ◌+◌, ◌≤◌, ◌<◌, ◌^◌, ◌≡◌, sym, ap, subst, ◌∙◌, List, [], ◌∷◌, ◌++◌, arith, All, All-append,
  All-left, All-right, In, In-append_left, In-append_right,
}
use custom_memory_allocator.Memory.{read_word}
use custom_memory_allocator.Os.{Platform}
use custom_memory_allocator.Os.Laws.{IsKernel}
use custom_memory_allocator.Pool.Slots.{IsStock}
use custom_memory_allocator.Pool.Restock.{AreMapped}
use custom_memory_allocator.ThreadCache.{pool_address}
use custom_memory_allocator.Threads.{Thread, Shared, Team, Step, pick, Reaches, here, later}
use custom_memory_allocator.Threads.Share.{IsPart, Acted}
use custom_memory_allocator.Threads.Acts.{Act-Acted}
use custom_memory_allocator.Threads.Members.{
  Member, member, threads_of, slots_of, MemberHolds, Place, place, slots_of-middle,
  threads_of-middle, to_front, from_front, members_keep,
}

pub record IsTeam (owner : ℕ) (t : Team) : Type 0 where
  pub members : List Member
  pub threads : t.threads ≡ threads_of members
  pub free : List ℕ
  pub is_stock : IsStock t.state.world.mem t.state.pool free (t.state.live ++ slots_of members)
  pub are_mapped : AreMapped t.state.world.process.mapped t.state.pool.arenas
  pub each : All (MemberHolds t.state.world.mem) members
  pub tags : All (λ y. read_word t.state.world.mem y ≡ owner) t.state.live
  pub unheld : t.state.world.process.held ≡ []
  pub small : t.state.pool.slot_total_size < 2 ^ 40

pub view :
    {owner : ℕ} {t : Team} {before after : List Thread} {th : Thread}
    → (i : IsTeam owner t) → (l : Place i.members before th after)
    → IsPart owner t.state th l.mine (slots_of l.left ++ slots_of l.right)
view {owner} {t} {before} {after} {th} i l =
    let m = t.state.world.mem in
    let each = subst (All (MemberHolds m)) l.split i.each in
    record {
      free = i.free;
      is_stock =
          to_front m t.state.pool i.free t.state.live (slots_of l.left) l.mine (slots_of l.right) (
            subst (λ r. IsStock m t.state.pool i.free (t.state.live ++ r))
              (ap slots_of l.split ∙ slots_of-middle l.left (member th l.mine) l.right) i.is_stock);
      are_mapped = i.are_mapped;
      holds = (All-right (MemberHolds m) l.left (member th l.mine ∷ l.right) each).0;
      tags = i.tags;
      unheld = i.unheld;
      small = i.small;
    }

-- A step keeps the slots apart, and leaves the slots that the program has before and after it as
-- they are.
pub record Stepped (owner : ℕ) (t t' : Team) : Type 0 where
  pub is_team : IsTeam owner t'
  pub live_same :
      (y a : ℕ)
      → In y t.state.live
      → In y t'.state.live
      → y ≤ a
      → a < y + t.state.pool.slot_total_size
      → t'.state.world.mem a ≡ t.state.world.mem a

rejoin :
    {owner : ℕ} {t : Team} {before after : List Thread} {th th' : Thread} {s' : Shared}
    → (i : IsTeam owner t) → (l : Place i.members before th after)
    → Acted owner t.state (slots_of l.left ++ slots_of l.right) s' th'
    → Stepped owner t (record { state = s'; threads = before ++ th' ∷ after })
rejoin {owner} {t} {before} {after} {th} {th'} {s'} i l a =
    let w = t.state.world in
    let q = a.is_part in
    let wide : 8 ≤ t.state.pool.slot_total_size = omega (arith, i.is_stock.total) in
    let ls = slots_of l.left in
    let rs = slots_of l.right in
    let mb = member th' a.mine in
    let each = subst (All (MemberHolds w.mem)) l.split i.each in
    let keep = members_keep (ls ++ rs) t.state.pool s'.pool w s'.world in
    record {
      is_team = record {
        members = l.left ++ mb ∷ l.right;
        threads =
            ap (λ r. r ++ th' ∷ after) (sym l.before_same)
            ∙ ap (λ r. threads_of l.left ++ th' ∷ r) (sym l.after_same)
            ∙ sym (threads_of-middle l.left mb l.right);
        free = q.free;
        is_stock =
            subst (λ r. IsStock s'.world.mem s'.pool q.free (s'.live ++ r))
              (sym (slots_of-middle l.left mb l.right))
              (from_front s'.world.mem s'.pool q.free s'.live ls a.mine rs q.is_stock);
        are_mapped = q.are_mapped;
        each =
            All-append (MemberHolds s'.world.mem) l.left (mb ∷ l.right)
              (keep l.left wide a.spared (λ y at. In-append_left ls rs y at)
                (All-left (MemberHolds w.mem) l.left (member th l.mine ∷ l.right) each))
              (
                q.holds,
                keep l.right wide a.spared (λ y at. In-append_right ls rs y at)
                    (All-right (MemberHolds w.mem) l.left (member th l.mine ∷ l.right) each).1,
              );
        tags = q.tags;
        unheld = q.unheld;
        small = q.small;
      };
      live_same = a.live_same;
    }

module _ (p : Platform) (index : ℕ) (kernel : IsKernel p)
    (low : pool_address p index < 2 ^ 64) where
  -- A step of any thread, from a state in which the slots are accounted for, leads to another one, and
  -- changes no byte of a slot that is live before and after it.
  pub Step-Stepped :
      {t t' : Team}
      → IsTeam (pool_address p index) t
      → Step p index t t'
      → Stepped (pool_address p index) t t'
  Step-Stepped {t} i (pick before {th} after e act) =
      let l = place i.members before th after (sym i.threads ∙ e) in
      rejoin i l (Act-Acted p index kernel low l.mine _ (view i l) act)

  pub Reaches-IsTeam :
      {t t' : Team}
      → IsTeam (pool_address p index) t
      → Reaches p index t t'
      → IsTeam (pool_address p index) t'
  Reaches-IsTeam i here = i
  Reaches-IsTeam i (later r st) = (Step-Stepped (Reaches-IsTeam i r) st).is_team
